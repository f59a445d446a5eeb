-- ===== src/AuthTypes.antt =====
-- xet-auth-types/src/lib.rs: the tokens that the hub signs and the server verifies. A string is the
-- bytes of its UTF-8. Base64, JSON, Ed25519 and the trimming of strings are calls of libraries.
pub mod RoundTrip
use xet_server.Prelude.{
  ℕ, ◌-◌, ◌*◌, Bool, true, false, not, ◌&&◌, ◌||◌, ◌==◌, ltb, leb, Option, none, some, List, [],
  ◌∷◌, ◌++◌, length, take, drop, is_empty, if◌then◌else◌,
}
use xet_server.Bytes.{eq_bytes}

pub record XetClaims : Type 0 where
  pub sub : List ℕ
  pub scope : List ℕ
  pub repo_id : List ℕ
  pub repo_type : List ℕ
  pub revision : List ℕ
  pub exp : ℕ
  pub iat : ℕ
  pub kid : List ℕ
  pub token_type : List ℕ
  pub oid : Option (List ℕ)
  pub operation : Option (List ℕ)

pub data TokenKind : Type 0 where
  user : TokenKind
  proxy : TokenKind
  internal : TokenKind

pub data TokenWireError : Type 0 where
  invalid_token : TokenWireError
  expired : TokenWireError
  invalid_signature : TokenWireError
  unknown_kid : TokenWireError

-- `Result<_, TokenWireError>`
pub data Checked (A : Type 0) : Type 0 where
  ok : A → Checked A
  err : TokenWireError → Checked A

infixl 5 ◌>>=◌ ◌>>◌
abbrev pub ◌>>=◌ : {A B : Type 0} → Checked A → (A → Checked B) → Checked B
ok a >>= f = f a
err e >>= f = err e

abbrev pub ◌>>◌ : {B : Type 0} → Checked (Unit {0}) → Checked B → Checked B
m >> k = m >>= λ _. k

abbrev pub err_if : Bool → TokenWireError → Checked (Unit {0})
err_if true e = err e
err_if false e = ok tt

abbrev pub or_err : {A : Type 0} → Option A → TokenWireError → Checked A
or_err none e = err e
or_err (some a) e = ok a

pub record JwtHeader : Type 0 where
  pub alg : List ℕ
  pub typ : List ℕ
  pub kid : List ℕ

-- `URL_SAFE_NO_PAD`, `serde_json`, `ed25519_dalek` and `str::trim`. A key and a signature are their
-- bytes.
pub record Libraries : Type 0 where
  pub encode : List ℕ → List ℕ
  pub decode : List ℕ → Option (List ℕ)
  pub header_to_vec : JwtHeader → Option (List ℕ)
  pub header_from_slice : List ℕ → Option JwtHeader
  pub claims_to_vec : XetClaims → Option (List ℕ)
  pub claims_from_slice : List ℕ → Option XetClaims
  pub sign : List ℕ → List ℕ → List ℕ
  pub signature_from_slice : List ℕ → Option (List ℕ)
  pub verify : List ℕ → List ℕ → List ℕ → Bool
  pub trim : List ℕ → List ℕ

abbrev pub max_token_lifetime_secs : ℕ
max_token_lifetime_secs = 7 * 24 * 3600

unfoldable pub prefix : TokenKind → List ℕ
prefix user = 120 ∷ 101 ∷ 116 ∷ 95 ∷ []
prefix proxy = 112 ∷ 114 ∷ 111 ∷ 120 ∷ 121 ∷ 95 ∷ []
prefix internal = 105 ∷ 110 ∷ 116 ∷ 101 ∷ 114 ∷ 110 ∷ 97 ∷ 108 ∷ 95 ∷ []

unfoldable pub token_type : TokenKind → List ℕ
token_type user = 117 ∷ 115 ∷ 101 ∷ 114 ∷ []
token_type proxy = 112 ∷ 114 ∷ 111 ∷ 120 ∷ 121 ∷ []
token_type internal = 105 ∷ 110 ∷ 116 ∷ 101 ∷ 114 ∷ 110 ∷ 97 ∷ 108 ∷ []

abbrev pub dot : ℕ
dot = 46

abbrev pub eddsa : List ℕ
eddsa = 69 ∷ 100 ∷ 68 ∷ 83 ∷ 65 ∷ []

abbrev pub jwt : List ℕ
jwt = 74 ∷ 87 ∷ 84 ∷ []

abbrev pub upload : List ℕ
upload = 117 ∷ 112 ∷ 108 ∷ 111 ∷ 97 ∷ 100 ∷ []

abbrev pub download : List ℕ
download = 100 ∷ 111 ∷ 119 ∷ 110 ∷ 108 ∷ 111 ∷ 97 ∷ 100 ∷ []

abbrev pub lfs_upload : List ℕ
lfs_upload = 108 ∷ 102 ∷ 115 ∷ 45 ∷ 117 ∷ 112 ∷ 108 ∷ 111 ∷ 97 ∷ 100 ∷ []

abbrev pub lfs_download : List ℕ
lfs_download = 108 ∷ 102 ∷ 115 ∷ 45 ∷ 100 ∷ 111 ∷ 119 ∷ 110 ∷ 108 ∷ 111 ∷ 97 ∷ 100 ∷ []

-- `str::strip_prefix`
unfoldable pub strip_prefix : List ℕ → List ℕ → Option (List ℕ)
strip_prefix [] bs = some bs
strip_prefix (p ∷ ps) [] = none
strip_prefix (p ∷ ps) (b ∷ bs) = let rest = strip_prefix ps bs in if b == p then rest else none

-- The loop over the kinds.
unfoldable pub try_prefixes : List TokenKind → List ℕ → Option (TokenKind × List ℕ)
try_prefixes [] token = none
try_prefixes (kind ∷ kinds) token =
    let rest = try_prefixes kinds token in
    elim (strip_prefix (prefix kind) token) [ none ↦ rest | some body ↦ some (kind, body) ]

unfoldable pub from_prefix : List ℕ → Option (TokenKind × List ℕ)
from_prefix token = try_prefixes (user ∷ proxy ∷ internal ∷ []) token

abbrev pub prepend : ℕ → List (List ℕ) → List (List ℕ)
prepend b [] = (b ∷ []) ∷ []
prepend b (c ∷ cs) = (b ∷ c) ∷ cs

-- `token_body.split('.')`
unfoldable pub split_dots : List ℕ → List (List ℕ)
split_dots [] = [] ∷ []
split_dots (b ∷ bs) = let rest = split_dots bs in if b == dot then [] ∷ rest else prepend b rest

abbrev pub Parts : Type 0
Parts = List ℕ × List ℕ × List ℕ

-- The four calls of `parts.next()`.
unfoldable pub three_parts : List (List ℕ) → Checked Parts
three_parts (header ∷ claims ∷ signature ∷ []) = ok (header, claims, signature)
three_parts _ = err invalid_token

unfoldable pub token_parts : List ℕ → Checked (TokenKind × Parts)
token_parts token = do
  (kind, token_body) ← or_err (from_prefix token) invalid_token
  parts ← three_parts (split_dots token_body)
  ok (kind, parts)

abbrev pub same_kind : TokenKind → TokenKind → Bool
same_kind user user = true
same_kind proxy proxy = true
same_kind internal internal = true
same_kind _ _ = false

-- `exp.checked_sub(iat)`
abbrev pub checked_sub : ℕ → ℕ → Option ℕ
checked_sub a b = if ltb a b then none else some (a - b)

-- The match on `operation`.
unfoldable pub expected_scope : Option (List ℕ) → Checked (List ℕ)
expected_scope none = err invalid_token
expected_scope (some operation) =
    if eq_bytes operation upload
    then ok lfs_upload
    else if eq_bytes operation download
    then ok lfs_download
    else err invalid_token

-- The header that `sign_claims` writes.
abbrev pub signed_header : XetClaims → JwtHeader
signed_header claims = record { alg = eddsa; typ = jwt; kid = claims.kid }

-- `format!("{}.{}", …)`
abbrev pub signing_input : List ℕ → List ℕ → List ℕ
signing_input header_b64 claims_b64 = header_b64 ++ (dot ∷ claims_b64)

module _ (l : Libraries) where
  unfoldable pub decode_header : List ℕ → Checked JwtHeader
  decode_header encoded = do
    header_bytes ← or_err (l.decode encoded) invalid_token
    header ← or_err (l.header_from_slice header_bytes) invalid_token
    err_if (not (eq_bytes header.alg eddsa) || not (eq_bytes header.typ jwt)) invalid_token
    err_if (is_empty header.kid) unknown_kid
    ok header

  -- `oid.filter(|oid| !oid.trim().is_empty()).is_none()`
  abbrev pub is_missing : Option (List ℕ) → Bool
  is_missing none = true
  is_missing (some oid) = is_empty (l.trim oid)

  unfoldable pub validate_proxy : XetClaims → TokenKind → Checked (Unit {0})
  validate_proxy claims proxy = do
    scope ← expected_scope claims.operation
    err_if (is_missing claims.oid || not (eq_bytes claims.scope scope)) invalid_token
  validate_proxy claims user = ok tt
  validate_proxy claims internal = ok tt

  unfoldable pub validate_claims_for_kind : XetClaims → TokenKind → Checked (Unit {0})
  validate_claims_for_kind claims kind = do
    err_if (not (eq_bytes claims.token_type (token_type kind)) || is_empty claims.kid) invalid_token
    lifetime ← or_err (checked_sub claims.exp claims.iat) invalid_token
    err_if (lifetime == 0 || ltb max_token_lifetime_secs lifetime) invalid_token
    validate_proxy claims kind

  unfoldable pub unverified_token_kid : List ℕ → Checked (List ℕ)
  unverified_token_kid token = do
    (kind, parts) ← token_parts token
    header ← decode_header parts.0
    ok header.kid

  unfoldable pub sign_claims : XetClaims → List ℕ → TokenKind → Checked (List ℕ)
  sign_claims claims signing_key kind = do
    validate_claims_for_kind claims kind
    header_bytes ← or_err (l.header_to_vec (signed_header claims)) invalid_token
    claims_bytes ← or_err (l.claims_to_vec claims) invalid_token
    let input = signing_input (l.encode header_bytes) (l.encode claims_bytes)
    let signature = l.sign signing_key input
    ok (prefix kind ++ (input ++ (dot ∷ l.encode signature)))

  -- `now`: the seconds since the epoch, when the clock is behind it.
  unfoldable pub verify_token_any_kind :
      Option ℕ → List ℕ → List ℕ → List ℕ → Checked (TokenKind × XetClaims)
  verify_token_any_kind clock token public_key expected_kid = do
    (kind, (header_b64, claims_b64, signature_b64)) ← token_parts token
    header ← decode_header header_b64
    err_if (not (eq_bytes header.kid expected_kid)) unknown_kid
    signature_bytes ← or_err (l.decode signature_b64) invalid_token
    signature ← or_err (l.signature_from_slice signature_bytes) invalid_signature
    err_if (not (l.verify public_key (signing_input header_b64 claims_b64) signature))
        invalid_signature
    claims_bytes ← or_err (l.decode claims_b64) invalid_token
    claims ← or_err (l.claims_from_slice claims_bytes) invalid_token
    err_if (not (eq_bytes claims.kid expected_kid)) unknown_kid
    err_if (not (eq_bytes claims.token_type (token_type kind))) invalid_token
    now ← or_err clock invalid_token
    err_if (leb claims.exp now) expired
    err_if (ltb now claims.iat) invalid_token
    err_if (ltb max_token_lifetime_secs (now - claims.iat)) expired
    validate_claims_for_kind claims kind
    ok (kind, claims)

  unfoldable pub verify_token : Option ℕ → List ℕ → List ℕ → List ℕ → TokenKind → Checked XetClaims
  verify_token clock token public_key expected_kid expected_kind = do
    (kind, claims) ← verify_token_any_kind clock token public_key expected_kid
    err_if (not (same_kind kind expected_kind)) invalid_token
    ok claims
