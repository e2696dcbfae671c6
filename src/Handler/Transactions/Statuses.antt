-- ===== src/Handler/Transactions/Statuses.antt =====
-- What the statuses of a top-up and of a transfer say, internal/handler/transaction_handler.go.
use wallet_ledger_service.Common.{ℕ, ◌≡◌, ◌≢◌, refl, false, [], ◌∷◌, ◌++◌, arith}
use wallet_ledger_service.Model.{Uuid}
use wallet_ledger_service.Failure.{
  Error, has_sentinel, not-is_error, wallet_not_found, self_transfer, insufficient_balance,
  target_wallet_not_found,
}
use wallet_ledger_service.World.{Env, World, Event}
use wallet_ledger_service.Dto.Bodies.{
  TopUpRequest, TopUpResponse, TransferRequest, TransferResponse,
}
use wallet_ledger_service.Http.{
  Context, Bound, bound, Reply, Wire, replied, write_error, write_success, top_up_payload,
  transfer_payload,
}
use wallet_ledger_service.Middleware.Auth.{got, get_user_id_from_context}
use wallet_ledger_service.Handler.Replies.Outcomes.{
  Untouched, Spares, Keeps, settle-Spares, settle-Keeps, with_user-Spares, with_user-Keeps,
  with_bound-Spares, with_bound-Keeps,
}
use wallet_ledger_service.Handler.Transactions.{
  top_up_error, transfer_error, handle_top_up, handle_transfer,
}
use wallet_ledger_service.Service.Transactions.TopUp.Commit.{Credited, top_up-Requests}
use wallet_ledger_service.Service.Transactions.Transfer.Commit.{Transferred, transfer-Requests}

module _ (wire : Wire) (e : Error) where
  top_up_error-status : (top_up_error wire e).status ≢ 200
  unfolding top_up_error write_error
  top_up_error-status = ground arith

  transfer_error-status : (transfer_error wire e).status ≢ 200
  unfolding transfer_error write_error
  transfer_error-status = ground arith

  top_up_error-fault : has_sentinel e ≡ false → (top_up_error wire e).status ≡ 500
  unfolding top_up_error write_error
  top_up_error-fault h = rw (not-is_error e wallet_not_found h) refl

  transfer_error-fault : has_sentinel e ≡ false → (transfer_error wire e).status ≡ 500
  unfolding transfer_error write_error
  transfer_error-fault h =
      rw
        (
          not-is_error e self_transfer h,
          not-is_error e insufficient_balance h,
          not-is_error e target_wallet_not_found h,
          not-is_error e wallet_not_found h,
        )
        refl

module _ (wire : Wire) (env : Env) (c : Context) where
  handle_transfer-Spares :
      (body : Bound TransferRequest) → Spares env 200 (handle_transfer wire env c body)
  unfolding handle_transfer write_success
  handle_transfer-Spares body = with_user-Spares c λ id. with_bound-Spares body λ req.
      settle-Spares _ _ 200 (transfer-Requests env id req) (λ a. refl) (transfer_error-fault wire)

  handle_transfer-Keeps :
      (body : Bound TransferRequest)
      → Keeps 200 (handle_transfer wire env c body) (λ w x w'.
        (id : Uuid) × (get_user_id_from_context c ≡ got id)
        × ((req : TransferRequest) × (body ≡ bound req)
            × ((n : ℕ) × (a : TransferResponse) × (e : Event) × Transferred env id req w.db
                  (env.others n w.db)
                  a
                  e
                  w'.db
                × (x ≡ write_success 200 "Transfer successful" (transfer_payload a))
                × (w'.events ≡ w.events ++ e ∷ []))))
  unfolding handle_transfer
  handle_transfer-Keeps body = with_user-Keeps c {s = 200} (omega arith) λ id.
      with_bound-Keeps {s = 200} body (omega arith)
        λ req. settle-Keeps _ _ 200 (transfer-Requests env id req) (transfer_error-status wire)

  -- A reply to a transfer whose status is neither 200 nor 500 comes with the tables as the request
  -- found them or as other sessions left them, and with no event handed on, whatever the request
  -- holds and whichever calls fail.
  pub handle_transfer-refused :
      (body : Bound TransferRequest) (w : World) (x : Reply)
      → (handle_transfer wire env c body w).0 ≡ replied x
      → x.status ≢ 200
      → x.status ≢ 500
      → Untouched env w (handle_transfer wire env c body w).1
  handle_transfer-refused body w x h p q = (handle_transfer-Spares body).spares w x h p q

  -- A reply 200 to a transfer is for a user id of the context and a body that was bound, and what
  -- `Transferred` says has been committed for them on the tables as other sessions left them; the
  -- reply carries the answer, and its one event is handed on.
  pub handle_transfer-succeeded :
      (body : Bound TransferRequest) (w : World) (x : Reply)
      → (handle_transfer wire env c body w).0 ≡ replied x
      → x.status ≡ 200
      → (id : Uuid) × (get_user_id_from_context c ≡ got id)
        × ((req : TransferRequest) × (body ≡ bound req)
            × ((n : ℕ) × (a : TransferResponse) × (e : Event) × Transferred env id req w.db
                  (env.others n w.db)
                  a
                  e
                  (handle_transfer wire env c body w).1.db
                × (x ≡ write_success 200 "Transfer successful" (transfer_payload a))
                × ((handle_transfer wire env c body w).1.events ≡ w.events ++ e ∷ [])))
  handle_transfer-succeeded body w x h p = (handle_transfer-Keeps body).keeps w x h p

  handle_top_up-Spares :
      (body : Bound TopUpRequest) → Spares env 200 (handle_top_up wire env c body)
  unfolding handle_top_up write_success
  handle_top_up-Spares body = with_user-Spares c λ id. with_bound-Spares body λ req.
      settle-Spares _ _ 200 (top_up-Requests env id req) (λ a. refl) (top_up_error-fault wire)

  handle_top_up-Keeps :
      (body : Bound TopUpRequest)
      → Keeps 200 (handle_top_up wire env c body) (λ w x w'.
        (id : Uuid) × (get_user_id_from_context c ≡ got id)
        × ((req : TopUpRequest) × (body ≡ bound req)
            × ((n : ℕ) × (a : TopUpResponse) × (e : Event) × Credited env id req w.db
                  (env.others n w.db)
                  a
                  e
                  w'.db
                × (x ≡ write_success 200 "Top up successful" (top_up_payload a))
                × (w'.events ≡ w.events ++ e ∷ []))))
  unfolding handle_top_up
  handle_top_up-Keeps body = with_user-Keeps c {s = 200} (omega arith) λ id.
      with_bound-Keeps {s = 200} body (omega arith)
        λ req. settle-Keeps _ _ 200 (top_up-Requests env id req) (top_up_error-status wire)

  pub handle_top_up-refused :
      (body : Bound TopUpRequest) (w : World) (x : Reply)
      → (handle_top_up wire env c body w).0 ≡ replied x
      → x.status ≢ 200
      → x.status ≢ 500
      → Untouched env w (handle_top_up wire env c body w).1
  handle_top_up-refused body w x h p q = (handle_top_up-Spares body).spares w x h p q

  -- A reply 200 to a top up is for a user id of the context and a body that was bound, and what
  -- `Credited` says has been committed for them on the tables as other sessions left them; the
  -- reply carries the answer, and its one event is handed on.
  pub handle_top_up-succeeded :
      (body : Bound TopUpRequest) (w : World) (x : Reply)
      → (handle_top_up wire env c body w).0 ≡ replied x
      → x.status ≡ 200
      → (id : Uuid) × (get_user_id_from_context c ≡ got id)
        × ((req : TopUpRequest) × (body ≡ bound req)
            × ((n : ℕ) × (a : TopUpResponse) × (e : Event) × Credited env id req w.db
                  (env.others n w.db)
                  a
                  e
                  (handle_top_up wire env c body w).1.db
                × (x ≡ write_success 200 "Top up successful" (top_up_payload a))
                × ((handle_top_up wire env c body w).1.events ≡ w.events ++ e ∷ [])))
  handle_top_up-succeeded body w x h p = (handle_top_up-Keeps body).keeps w x h p
