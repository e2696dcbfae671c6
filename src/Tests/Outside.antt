-- ===== src/Tests/Outside.antt =====
-- Requests, a server around them, and libraries for it.
use mathlib.Core.Path.{subst}
use mathlib.Core.Option.{some-injective}
use wallet_ledger_service.Common.{
  String, ◌≡◌, refl, true, false, Bool, Option, some, none, [], str_eq, eq_iff, inl, inr,
  Bool-cases, ==_iff, sym, ap, ◌∙◌, ◌<◌, ◌==◌, ltb, ◌&&◌, arith, if◌then◌else◌,
}
use wallet_ledger_service.Common.Int.{pos}
use wallet_ledger_service.Model.{Time, transaction_type_top_up, transaction_status_completed}
use wallet_ledger_service.Dto.Validation.{other_error}
use wallet_ledger_service.Dto.Bodies.{TopUpResponse}
use wallet_ledger_service.Http.{Context, Wire, uuid, text, refused, no_body, replied}
use wallet_ledger_service.Middleware.Site.{Site}
use wallet_ledger_service.Middleware.Jwt.{Claims, Jwt, Token, hmac}
use wallet_ledger_service.Middleware.Idempotency.{CacheJson}
use wallet_ledger_service.Middleware.Idempotency.Replays.{Restores}
use wallet_ledger_service.Middleware.Jwt.RoundTrip.{Accepts}
use wallet_ledger_service.Server.{Server, Request}
use wallet_ledger_service.Config.{Settings}
use wallet_ledger_service.Tests.Fixtures.{calm, ready}

abbrev pub wire : Wire
wire = record { parse_uuid = λ s. some 50; fault_text = λ e. "fault"; encode = λ b. "{}" }

-- A POST of Ann's with an idempotency key, as it stands behind the guards.
abbrev pub ann_posts : Context
ann_posts = record {
  method = "POST";
  path = "/api/v1/transfers";
  client_ip = "10.0.0.1";
  cookie = λ name. some "token";
  header = λ name. if str_eq name "Idempotency-Key" then "key-1" else "";
  query = λ name. "";
  param = λ name. "";
  user_id = some (uuid 1);
  email = some (text "ann@example.com");
  role = some (text "USER");
}

abbrev pub site : Site
site = record { world = ready; counters = λ k. none; values = λ k. none; audits = [] }

-- A cached response is its text where its status is 200.
abbrev pub json : CacheJson
json = record {
  marshal = λ res. if res.status_code == 200 then some res.body else none;
  unmarshal = λ s. some (record { status_code = 200; body = s });
}

pub json-Restores : Restores json
json-Restores res s h = ground arith

abbrev pub deposited_answer : TopUpResponse
deposited_answer = record {
  transaction_id = 113;
  reference_no = "TXN-20260101-DEFGHIJK";
  type = transaction_type_top_up;
  status = transaction_status_completed;
  amount = pos 30;
  wallet_id = "WLT-A";
  balance_after = pos 530;
  created_at = 13;
}

abbrev pub ann_claims : Claims
ann_claims = record {
  user_id = 1;
  email = "ann@example.com";
  role = "USER";
  expires_at = 1000;
  issued_at = 0;
}

abbrev are_ann : Claims → Bool
are_ann c =
    (c.user_id == 1)
    && str_eq c.email "ann@example.com"
    && str_eq c.role "USER"
    && (c.expires_at == 1000)
    && (c.issued_at == 0)

abbrev checked : Option String → Time → String → Option Token
checked none now s = none
checked (some k) now s =
    if str_eq k s && ltb now 1000
    then some (record { claims = some ann_claims; valid = true })
    else none

-- A library that signs for Ann, with the secret as the token.
abbrev pub jwt : Jwt
jwt = record {
  numeric_date = λ t. t;
  signed_string = λ c secret. if are_ann c then some secret else none;
  parse_with_claims = λ key now token. checked (key hmac) now token;
}

and_true : (a b : Bool) → a && b ≡ true → (a ≡ true) × (b ≡ true)
and_true true b h = (refl, h)
and_true false b h = cc

ann_only : (c : Claims) → are_ann c ≡ true → c ≡ ann_claims
ann_only c h =
    let (h4, e5) = and_true _ _ h in
    let (h3, e4) = and_true _ _ h4 in
    let (h2, e3) = and_true _ _ h3 in
    let (e1, e2) = and_true _ _ h2 in
    let id : c.user_id ≡ 1 = (==_iff _ _).0 e1 in
    let email : c.email ≡ "ann@example.com" = (eq_iff _ _).0 e2 in
    let role : c.role ≡ "USER" = (eq_iff _ _).0 e3 in
    let expires : c.expires_at ≡ 1000 = (==_iff _ _).0 e4 in
    let issued : c.issued_at ≡ 0 = (==_iff _ _).0 e5 in
    λ i. record {
      user_id = id i;
      email = email i;
      role = role i;
      expires_at = expires i;
      issued_at = issued i;
    }

abbrev ann_token : Token
ann_token = record { claims = some ann_claims; valid = true }

soon : (now : Time) → now < 1000 → ltb now 1000 ≡ true
soon now h = ground arith

signed :
    (c : Claims) (secret : String) (b : Bool)
    → b ≡ true
    → (if b then some secret else none) ≡ some secret
signed c secret true h = refl
signed c secret false h = cc

unsigned :
    (secret token : String) (b : Bool)
    → b ≡ false
    → (if b then some secret else none) ≡ some token
    → ⊥
unsigned secret token true h k = cc
unsigned secret token false h k = cc

pub jwt-Accepts : Accepts jwt
jwt-Accepts c secret token key now made held live = elim (Bool-cases (are_ann c)) [
  | inl ann ↦
      let same : secret ≡ token =
        some-injective _ _ (sym (signed c secret (are_ann c) ann) ∙ made) in
      rw
        (
          held,
          (eq_iff secret token).1 same,
          soon now (subst (λ (x : Claims). now < x.expires_at) (ann_only c ann) live),
        )
        (ap (λ (x : Claims). some (record ann_token { claims = some x })) (sym (ann_only c ann)))
  | inr other ↦ absurd (unsigned secret token (are_ann c) other made)
]

abbrev pub settings : Settings
settings = record {
  get_string = λ defaults name. "set";
  get_bool = λ defaults name. true;
  parse_duration = λ s. some (pos 86400);
}

abbrev pub server : Server
server = record {
  env = calm;
  wire = wire;
  json = json;
  jwt = jwt;
  jwt_secret = "secret";
  auth_handler = record { jwt_expiry = 86400; secure = true };
  path_matches = str_eq;
  no_route = record { status = 404; body = no_body; cookie = none; headers = [] };
  stream_notifications =
      λ c s. (replied (record { status = 200; body = no_body; cookie = none; headers = [] }), s);
}

-- Ann asks for the list of users, which is for administrators.
abbrev pub asks_for_users : Request
asks_for_users = record {
  context = record ann_posts {
    method = "GET";
    path = "/api/v1/admin/users";
    cookie = λ name. some "secret";
    user_id = none;
    role = none;
  };
  register_body = refused (other_error "EOF");
  login_body = refused (other_error "EOF");
  top_up_body = refused (other_error "EOF");
  transfer_body = refused (other_error "EOF");
  pagination = refused (other_error "page");
}
