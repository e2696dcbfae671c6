-- ===== src/Utils/Ids/Widths.antt =====
-- The identifiers: how many draws they take, what they are made of, and the columns they fit.
use Prim.Native.String
use Prim.Native.String.{count}
use Prim.Native.String.append
use Prim.Native.String.count
use wallet_ledger_service.Common.{
  ℕ, zero, suc, ◌+◌, ◌<◌, ◌≤◌, String, ◌≡◌, refl, sym, ap, ◌∙◌, true, some, fits, arith,
}
use wallet_ledger_service.Failure.{ok}
use wallet_ledger_service.Model.{Time}
use wallet_ledger_service.World.{Env, World, M, resume, ◌>>=◌, pure, read_clock}
use wallet_ledger_service.Utils.Ids.{
  charset, letter_at, random_letter, random_alphanumeric, generate_wallet_id,
  generate_transaction_ref, generate_ledger_entry_id, generate_audit_log_id,
}

-- So many letters of the character set.
abbrev pub Drawn : ℕ → String → Type 0
Drawn zero s = s ≡ ""
Drawn (suc n) s =
    (i : ℕ) × (l : String) × (rest : String) × (letter_at charset i ≡ some l)
    × (s ≡ String.◌++◌ l rest)
    × Drawn n rest

count_append : (a b : String) → count (String.◌++◌ a b) ≡ count a + count b
count_append String.[] b = omega (arith, ap count (append.nil b))
count_append (String.◌∷◌ c a) b = omega (
  arith,
  ap count (append.cons c a b),
  count.cons c (String.◌++◌ a b),
  count.cons c a,
  count_append a b,
)

append_assoc : (a b c : String) → String.◌++◌ (String.◌++◌ a b) c ≡ String.◌++◌ a (String.◌++◌ b c)
append_assoc String.[] b c = rw (append.nil b, append.nil (String.◌++◌ b c)) refl
append_assoc (String.◌∷◌ x a) b c =
    rw
      (
        append.cons x a b,
        append.cons x (String.◌++◌ a b) c,
        append.cons x a (String.◌++◌ b c),
        append_assoc a b c,
      )
      refl

fits_lem : (width : ℕ) (s : String) → count s ≤ width → fits width s ≡ true
fits_lem width s h = ground arith

-- Within the text there is a letter.
letter_at_total : (s : String) (i : ℕ) → i < count s → (l : String) × (letter_at s i ≡ some l)
letter_at_total String.[] i h = absurd (omega (arith, h))
letter_at_total (String.◌∷◌ c s) zero h = (_, refl)
letter_at_total (String.◌∷◌ c s) (suc i) h = letter_at_total s i (omega (arith, h, count.cons c s))

letter_at-count : (s : String) (i : ℕ) (l : String) → letter_at s i ≡ some l → count l ≡ 1
letter_at-count String.[] i l e = cc
letter_at-count (String.◌∷◌ c s) zero l e =
    let same : String.◌∷◌ c String.[] ≡ l = cc in ap count (sym same) ∙ count.cons c String.[]
letter_at-count (String.◌∷◌ c s) (suc i) l e = letter_at-count s i l e

-- `rand.Int` gives a number below 36.
abbrev pub Draws : Env → Type 0
Draws env = (n : ℕ) → (i : ℕ) × (env.random_index n ≡ some i) × (i < 36)

-- A computation that returns a text with so many letters drawn after a prefix, in so many calls.
-- The text is no longer than its column.
pub record Generated (m : M String) (prefix : String) (letters calls width : ℕ) (w : World)
    : Type 0 where
  pub drawn : String
  pub returns : (m w).0 ≡ ok (String.◌++◌ prefix drawn)
  pub is_drawn : Drawn letters drawn
  pub stops : (m w).1.calls ≡ calls + w.calls
  pub width_is : fits width (String.◌++◌ prefix drawn) ≡ true

-- What a reference starts with: the clock is read after the draws.
abbrev pub dated : Env → ℕ → String
dated env calls = String.◌++◌ "TXN-" (String.◌++◌ (env.date_stamp (env.now calls)) "-")

Drawn-count : (n : ℕ) (s : String) → Drawn n s → count s ≡ n
Drawn-count zero s e = ap count e
Drawn-count (suc n) s (i, l, rest, at, e, d) =
    omega
      (arith, ap count e, count_append l rest, letter_at-count charset i l at, Drawn-count n rest d)

returned :
    {A B : Type 0} (m : M A) (f : A → M B) (a : A) (w : World)
    → (m w).0 ≡ ok a
    → (m >>= f) w ≡ f a (m w).1
unfolding ◌>>=◌
returned m f a w e = ap (λ r. resume r f (m w).1) e

module _ (env : Env) (draws : Draws env) where
  random_letter-Drawn :
      (w : World)
      → (i : ℕ) × (l : String) × (letter_at charset i ≡ some l)
        × ((random_letter env w).0 ≡ ok l)
        × ((random_letter env w).1.calls ≡ suc w.calls)
  unfolding random_letter
  random_letter-Drawn w =
      let (i, e, h) = draws w.calls in
      let (l, at) = letter_at_total charset i h in
      (i, l, at, rw (random_letter, e, at) refl, rw (random_letter, e, at) refl)

  random_alphanumeric-Drawn :
      (n : ℕ) (w : World)
      → (s : String) × ((random_alphanumeric env n w).0 ≡ ok s)
        × Drawn n s
        × ((random_alphanumeric env n w).1.calls ≡ n + w.calls)
  unfolding random_alphanumeric pure
  random_alphanumeric-Drawn zero w = ("", refl, refl, omega arith)
  random_alphanumeric-Drawn (suc n) w =
      let (i, l, at, e, k) = random_letter-Drawn w in
      let (s, e', d, k') = random_alphanumeric-Drawn n (random_letter env w).1 in
      let all =
        returned (random_letter env) _ l w e ∙ returned (random_alphanumeric env n) _ s _ e' in
      (
        String.◌++◌ l s,
        ap (λ x. x.0) all,
        (i, l, s, at, refl, d),
        ap (λ x. x.1.calls) all ∙ k' ∙ omega (arith, k),
      )

  prefixed :
      (n width : ℕ) (prefix : String) (w : World)
      → count prefix + n ≤ width
      → Generated
          (random_alphanumeric env n >>= λ r. pure (String.◌++◌ prefix r))
          prefix
          n
          n
          width
          w
  unfolding pure
  prefixed n width prefix w h =
      let (s, e, d, k) = random_alphanumeric-Drawn n w in
      let all = returned (random_alphanumeric env n) (λ r. pure (String.◌++◌ prefix r)) s w e in
      record {
        drawn = s;
        returns = ap (λ x. x.0) all;
        is_drawn = d;
        stops = ap (λ x. x.1.calls) all ∙ k;
        width_is = fits_lem width _ (omega (arith, h, count_append prefix s, Drawn-count n s d));
      }

  generate_wallet_id-Generated : (w : World) → Generated (generate_wallet_id env) "WLT-" 8 8 20 w
  unfolding generate_wallet_id
  generate_wallet_id-Generated w = prefixed 8 20 "WLT-" w (omega arith)

  generate_ledger_entry_id-Generated :
      (w : World) → Generated (generate_ledger_entry_id env) "LED-" 10 10 20 w
  unfolding generate_ledger_entry_id
  generate_ledger_entry_id-Generated w = prefixed 10 20 "LED-" w (omega arith)

  generate_audit_log_id-Generated :
      (w : World) → Generated (generate_audit_log_id env) "AUD-" 10 10 20 w
  unfolding generate_audit_log_id
  generate_audit_log_id-Generated w = prefixed 10 20 "AUD-" w (omega arith)

  reference_lem :
      {calls' calls : ℕ} (s : String)
      → calls' ≡ calls
      → String.◌++◌ "TXN-" (String.◌++◌ (env.date_stamp (env.now calls')) (String.◌++◌ "-" s))
        ≡ String.◌++◌ (dated env calls) s
  reference_lem {calls'} {calls} s k =
      ap (λ n. String.◌++◌ "TXN-" (String.◌++◌ (env.date_stamp (env.now n)) (String.◌++◌ "-" s))) k
      ∙ sym (
          append_assoc "TXN-" (String.◌++◌ (env.date_stamp (env.now calls)) "-") s
          ∙ ap (String.◌++◌ "TXN-") (append_assoc (env.date_stamp (env.now calls)) "-" s))

  module _ (days : (t : Time) → count (env.date_stamp t) ≡ 8) where
    dated-count : (calls : ℕ) → count (dated env calls) ≡ 13
    dated-count calls = omega (
      arith,
      count_append "TXN-" (String.◌++◌ (env.date_stamp (env.now calls)) "-"),
      count_append (env.date_stamp (env.now calls)) "-",
      days (env.now calls),
    )

    generate_transaction_ref-Generated :
        (w : World) → Generated (generate_transaction_ref env) (dated env (8 + w.calls)) 8 9 30 w
    unfolding generate_transaction_ref ◌>>=◌ read_clock pure
    generate_transaction_ref-Generated w =
        let (s, e, d, k) = random_alphanumeric-Drawn 8 w in
        let all = returned (random_alphanumeric env 8) _ s w e in
        record {
          drawn = s;
          returns = ap (λ x. x.0) all ∙ ap ok (reference_lem s k);
          is_drawn = d;
          stops = ap (λ x. x.1.calls) all ∙ ap suc k ∙ omega arith;
          width_is = fits_lem 30 _ (
              omega (
                arith,
                count_append (dated env (8 + w.calls)) s,
                dated-count (8 + w.calls),
                Drawn-count 8 s d,
              ));
        }

    -- Where every draw gives a number below 36 and a day is printed with eight characters, each
    -- generator returns after 8 or 10 draws, and one reading of the clock for a reference: its
    -- text is its prefix and as many letters of the character set as it has drawn, and fits its
    -- column, of 30 characters for a reference and 20 for an id.
    pub identifiers-Generated :
        (w : World)
        → Generated (generate_transaction_ref env) (dated env (8 + w.calls)) 8 9 30 w
          × Generated (generate_wallet_id env) "WLT-" 8 8 20 w
          × Generated (generate_ledger_entry_id env) "LED-" 10 10 20 w
          × Generated (generate_audit_log_id env) "AUD-" 10 10 20 w
    identifiers-Generated w = (
      generate_transaction_ref-Generated w,
      generate_wallet_id-Generated w,
      generate_ledger_entry_id-Generated w,
      generate_audit_log_id-Generated w,
    )
