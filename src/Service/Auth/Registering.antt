-- ===== src/Service/Auth/Registering.antt =====
-- What a registration guarantees: the user and the wallet together, or neither.
use wallet_ledger_service.Common.{
  ℕ, String, ◌≡◌, refl, sym, ap, ◌∙◌, true, false, Option, none, some, [], ◌∷◌, ◌++◌, arith, str_eq,
  exists,
}
use wallet_ledger_service.Common.Int.{pos}
use wallet_ledger_service.Model.{Uuid, Time, Decimal, User, Wallet, user_role_user}
use wallet_ledger_service.Failure.{ok, Error}
use wallet_ledger_service.Database.{
  Numeric, UserRow, WalletRow, Database, eq_uuid, store, is_nonneg,
}
use wallet_ledger_service.Sql.Users.{create_user, find_user_by_email}
use wallet_ledger_service.Sql.Wallets.{create_wallet}
use wallet_ledger_service.World.{Env, World, Event, EventData, in_tx, or_fail}
use wallet_ledger_service.World.Rules.{
  Runs, Runs-bind, Runs-wrap, Runs-query, Runs-read_clock, Runs-pure, Runs-weaken,
}
use wallet_ledger_service.World.Commits.{
  Settles, Settles-bind, Settles-weaken, Settles-commit, Requests, Requested, Requests-bind,
  Requests-weaken, Requests-begin,
}
use wallet_ledger_service.World.Reading.{Reads, Reads-raise_if, Reads-wrap}
use wallet_ledger_service.Utils.Ids.Effects.{generate_wallet_id-Stays}
use wallet_ledger_service.Repository.Common.{decimal_to_numeric, valid_or_zero}
use wallet_ledger_service.Repository.Users
use wallet_ledger_service.Repository.Users.{map_user}
use wallet_ledger_service.Repository.Wallets
use wallet_ledger_service.Repository.Wallets.{map_wallet}
use wallet_ledger_service.Repository.Effects.{Found, find_row-Reads}
use wallet_ledger_service.Service.Events.{publish_event}
use wallet_ledger_service.Service.Auth.{is_some, register_in_tx, register}
use wallet_ledger_service.Dto.Bodies.{RegisterRequest, RegisterResponse}

-- A user that is created is the last row of its table; its email and its id were free.
pub record NewUser (id : Uuid) (mail hash kind : String) (d : Database) (row : UserRow)
    (d' : Database) : Type 0 where
  pub after : d' ≡ record d { users = d.users ++ row ∷ [] }
  pub row_id : row.id ≡ some id
  pub email : row.email ≡ mail
  pub password_hash : row.password_hash ≡ hash
  pub role : row.role ≡ kind
  pub free_email : exists (λ (u : UserRow). str_eq u.email mail) d.users ≡ false
  pub free_id : exists (λ (u : UserRow). eq_uuid u.id (some id)) d.users ≡ false

create_user-NewUser :
    (id : Uuid) (now : Time) (email hash role : String) (d : Database) (row : UserRow)
    (d' : Database)
    → create_user id now email hash role d ≡ ok (row, d')
    → NewUser id email hash role d row d'
unfolding create_user
create_user-NewUser id now email hash role d row d' e = ground arith

-- A wallet that is created is the last row of its table, and its owner had none.
pub record NewWallet (column : Decimal → Option Decimal) (id : String) (owner : Uuid)
    (balance : Numeric) (d : Database) (row : WalletRow) (d' : Database) : Type 0 where
  pub after : d' ≡ record d { wallets = d.wallets ++ row ∷ [] }
  pub row_id : row.id ≡ id
  pub owner_id : row.user_id ≡ some owner
  pub stored : store column balance ≡ ok row.balance
  pub nonneg : is_nonneg row.balance ≡ true
  pub free_id : exists (λ (w : WalletRow). str_eq w.id id) d.wallets ≡ false
  pub free_owner : exists (λ (w : WalletRow). eq_uuid w.user_id (some owner)) d.wallets ≡ false

create_wallet-NewWallet :
    (column : Decimal → Option Decimal) (now : Time) (id currency : String) (owner : Uuid)
    (balance : Numeric) (d : Database) (row : WalletRow) (d' : Database)
    → create_wallet column now
        (record { id = id; user_id = some owner; balance = balance; currency = currency })
        d
      ≡ ok (row, d')
    → NewWallet column id owner balance d row d'
unfolding create_wallet
create_wallet-NewWallet column now id currency owner balance d row d' e = ground arith

module _ (env : Env) where
  create-NewUser :
      (email hash role : String)
      → Runs (Users.create env in_tx email hash role) (λ d user d'.
        (n : ℕ) × (row : UserRow) × (user ≡ map_user row)
        × NewUser (env.new_uuid n) email hash role d row d')
  unfolding Users.create
  create-NewUser email hash role =
      Runs-weaken
        (Runs-bind
          (Runs-wrap _ (
            Runs-query env _
              {R = λ d row d'. (n : ℕ) × NewUser (env.new_uuid n) email hash role d row d'}
              (λ n d row d' e. (n, create_user-NewUser _ _ _ _ _ d row d' e))))
          (λ row. Runs-pure (map_user row)))
        (λ d user d' (row, d1, (n, c), (same, e)). (n, row, e, rw same c))

  create-NewWallet :
      (wallet : Wallet)
      → Runs (Wallets.create env in_tx wallet) (λ d a d'.
        (row : WalletRow) × NewWallet env.column wallet.id wallet.user_id
          (decimal_to_numeric env.scan wallet.balance)
          d
          row
          d')
  unfolding Wallets.create
  create-NewWallet wallet =
      Runs-weaken
        (Runs-bind
          (Runs-wrap _ (
            Runs-query env _
              {R = λ d row d'.
                NewWallet env.column wallet.id wallet.user_id
                  (decimal_to_numeric env.scan wallet.balance) d row d'}
              (λ n d row d' e. create_wallet-NewWallet _ _ _ _ _ _ d row d' e)))
          (λ row. Runs-pure (map_wallet row)))
        (λ d a d' (row, d1, c, (same, e)). (row, rw same c))

  pub Reads-or_fail :
      {A : Type 0} (o : Option A) (x : Error) → Reads (or_fail o x) (λ start a. o ≡ some a)
  Reads-or_fail none x = record {
    db_same = λ w. refl;
    events_same = λ w. refl;
    finds = λ w a e. cc;
  }
  Reads-or_fail (some b) x = record {
    db_same = λ w. refl;
    events_same = λ w. refl;
    finds = λ w a e. ground arith;
  }

  -- What a committed registration has done, with the tables as its transaction found them.
  pub record Registered (req : RegisterRequest) (start d : Database) (a : RegisterResponse)
      (e : Event) (d' : Database) : Type 0 where
    pub user : UserRow
    pub wallet : WalletRow
    pub user_id : Uuid
    pub user_key : user.id ≡ some user_id
    pub mail : user.email ≡ req.email
    pub hashed : env.hash_password req.password ≡ some user.password_hash
    pub kind : user.role ≡ user_role_user
    pub free_email : exists (λ (u : UserRow). str_eq u.email req.email) d.users ≡ false
    pub free_wallet : exists (λ (w : WalletRow). str_eq w.id wallet.id) d.wallets ≡ false
    pub owner : wallet.user_id ≡ some user_id
    pub stored : store env.column (decimal_to_numeric env.scan (pos 0)) ≡ ok wallet.balance
    pub after : d' ≡ record d { users = d.users ++ user ∷ []; wallets = d.wallets ++ wallet ∷ [] }
    pub answer_user : a.user_id ≡ user_id
    pub answer_email : a.email ≡ req.email
    pub answer_wallet : a.wallet_id ≡ wallet.id
    pub event : e ≡ record {
      event_type = "REGISTER";
      user_id = env.uuid_string user_id;
      payload = EventData.register wallet.id;
    }

  register_in_tx-Settles :
      (req : RegisterRequest) (hash : String)
      → Settles (register_in_tx env req hash) (λ d a e d'.
        (start : Database)
        → env.hash_password req.password ≡ some hash
        → Registered req start d a e d')
  unfolding register_in_tx publish_event map_user
  register_in_tx-Settles req hash =
      Settles-weaken
        (Settles-bind (create-NewUser req.email hash user_role_user) λ user.
          Settles-bind (Runs-wrap _ (generate_wallet_id-Stays env)) λ wallet_id.
            Settles-bind (Runs-read_clock env) λ created.
              Settles-bind (Runs-read_clock env)
                λ updated. Settles-bind (create-NewWallet _) λ wallet. Settles-commit env _ _ _)
        (λ d a e d'
            (
              user,
              d1,
              (n, row, mapped, c),
              (
                wallet_id,
                d2,
                e2,
                (t1, d3, e3, (t2, d4, e4, (wallet, d5, (wrow, k), (e6, answer, event)))),
              ),
            )
            start hashed.
          let moved : d4 ≡ d1 = e4 ∙ e3 ∙ e2 in
          let id_eq : user.id ≡ env.new_uuid n =
            ap (λ (u : User). u.id) mapped ∙ ap valid_or_zero c.row_id in
          record {
            user = row;
            wallet = wrow;
            user_id = user.id;
            user_key = c.row_id ∙ ap some (sym id_eq);
            mail = c.email;
            hashed = hashed ∙ ap some (sym c.password_hash);
            kind = c.role;
            free_email = c.free_email;
            free_wallet = rw k.row_id (
                ap (λ (y : Database). exists (λ (w : WalletRow). str_eq w.id wallet_id) y.wallets)
                  (sym (moved ∙ c.after))
                ∙ k.free_id);
            owner = k.owner_id;
            stored = k.stored;
            after = rw (e6, k.after, moved, c.after) refl;
            answer_user = ap (λ (r : RegisterResponse). r.user_id) answer;
            answer_email =
                ap (λ (r : RegisterResponse). r.email) answer
                ∙ ap (λ (u : User). u.email) mapped
                ∙ c.email;
            answer_wallet = ap (λ (r : RegisterResponse). r.wallet_id) answer ∙ sym k.row_id;
            event = event ∙ rw k.row_id refl;
          })

  pub find_by_email-Reads :
      (email : String)
      → Reads
          (Users.find_by_email env email)
          (λ start o. Found map_user (find_user_by_email email start) o)
  unfolding Users.find_by_email
  find_by_email-Reads email = find_row-Reads env _ map_user (find_user_by_email email)

  pub register-Requests : (req : RegisterRequest) → Requests env (register env req) (Registered req)
  unfolding register
  register-Requests req =
      Requests-weaken
        (Requests-bind (find_by_email-Reads req.email) λ found.
          Requests-bind (Reads-raise_if (is_some found) _) λ _.
            Requests-bind (Reads-wrap _ (Reads-or_fail _ _))
              λ hash. Requests-begin env _ (register_in_tx-Settles req hash))
        (λ start d a e d' (found, h1, (u, free, (hash, h2, done))). done start h2)

  -- A registration ends in one of three ways, whichever calls fail and whatever other sessions do
  -- before its transaction begins. It errs, hands on no event and stores nothing. Or it has stored
  -- the user and the wallet of `Registered` together, answers them and hands its one event to the
  -- publishing goroutine. Or it has stored both, the reply to COMMIT is lost, and it ends in a
  -- fault and hands on no event.
  pub register-Requested :
      (req : RegisterRequest) (w : World) → Requested env (Registered req) w (register env req w)
  register-Requested req w = (register-Requests req).requested w
