-- ===== src/AuthTypes/RoundTrip.antt =====
-- The tokens that xet-auth-types/src/lib.rs signs are those that it verifies.
use xet_server.Prelude.{
  ℕ, ◌+◌, ◌-◌, ◌≤◌, ◌<◌, ◌≡◌, ◌≢◌, refl, sym, ap, ◌∙◌, arith, Bool, true, false, not, ◌||◌, ◌==◌,
  ltb, leb, Option, none, some, List, [], ◌∷◌, ◌++◌, append_assoc, is_empty, All, IsByte,
}
use xet_server.Bytes.{eq_bytes, eq_bytes_refl}
use xet_server.AuthTypes.{
  XetClaims, TokenKind, user, proxy, internal, TokenWireError, Checked, ok, err, ◌>>=◌, err_if,
  or_err, JwtHeader, Libraries, max_token_lifetime_secs, prefix, token_type, dot, eddsa, jwt,
  strip_prefix, try_prefixes, from_prefix, split_dots, three_parts, token_parts, same_kind,
  checked_sub, decode_header, validate_claims_for_kind, signed_header, signing_input, sign_claims,
  verify_token_any_kind, verify_token,
}

-- What the libraries document: each decoding undoes its encoding, base64 has no dot, and a signature
-- of a key is verified with its public key.
pub record HasRoundTrips (l : Libraries) (public : List ℕ → List ℕ) : Type 0 where
  pub decode_encode : (bs : List ℕ) → All IsByte bs → l.decode (l.encode bs) ≡ some bs
  pub encode_plain : (bs : List ℕ) → All (λ (b : ℕ). b ≢ dot) (l.encode bs)
  pub header_back :
      (h : JwtHeader) (bs : List ℕ)
      → l.header_to_vec h ≡ some bs
      → (l.header_from_slice bs ≡ some h) × All IsByte bs
  pub claims_back :
      (c : XetClaims) (bs : List ℕ)
      → l.claims_to_vec c ≡ some bs
      → (l.claims_from_slice bs ≡ some c) × All IsByte bs
  pub signature_back :
      (key message : List ℕ)
      → (l.signature_from_slice (l.sign key message) ≡ some (l.sign key message))
        × All IsByte (l.sign key message)
  pub verify_sign :
      (key message : List ℕ) → l.verify (public key) message (l.sign key message) ≡ true

bind-eq-ok :
    {A B : Type 0} (m : Checked A) (f : A → Checked B) {b : B}
    → (m >>= f) ≡ ok b
    → (a : A) × (m ≡ ok a) × (f a ≡ ok b)
bind-eq-ok (ok a) f h = (a, refl, h)
bind-eq-ok (err e) f h = cc

ok-injective : {A : Type 0} {a b : A} → ok a ≡ ok b → a ≡ b
ok-injective e = cc

or_err-some :
    {A : Type 0} (o : Option A) (x : TokenWireError) {a : A} → or_err o x ≡ ok a → o ≡ some a
or_err-some none x e = cc
or_err-some (some b) x e = ap some (ok-injective e)

err_if-ok : (b : Bool) (x : TokenWireError) {u : Unit {0}} → err_if b x ≡ ok u → b ≡ false
err_if-ok true x e = cc
err_if-ok false x e = refl

from_prefix-prefix :
    (kind : TokenKind) (bs : List ℕ) → from_prefix (prefix kind ++ bs) ≡ some (kind, bs)
unfolding from_prefix try_prefixes strip_prefix prefix
from_prefix-prefix user bs = refl
from_prefix-prefix proxy bs = refl
from_prefix-prefix internal bs = refl

split_dots-dot :
    (part rest : List ℕ)
    → All (λ (b : ℕ). b ≢ dot) part
    → split_dots (part ++ (dot ∷ rest)) ≡ part ∷ split_dots rest
unfolding split_dots
split_dots-dot [] rest v = refl
split_dots-dot (b ∷ part) rest (p, v) =
    let q : (b == dot) ≡ false = ground (arith, p) in rw (q, split_dots-dot part rest v) refl

split_dots-last : (part : List ℕ) → All (λ (b : ℕ). b ≢ dot) part → split_dots part ≡ part ∷ []
unfolding split_dots
split_dots-last [] v = refl
split_dots-last (b ∷ part) (p, v) =
    let q : (b == dot) ≡ false = ground (arith, p) in rw (q, split_dots-last part v) refl

token_parts-signed :
    (kind : TokenKind) (header claims signature : List ℕ)
    → All (λ (b : ℕ). b ≢ dot) header
    → All (λ (b : ℕ). b ≢ dot) claims
    → All (λ (b : ℕ). b ≢ dot) signature
    → token_parts (prefix kind ++ (signing_input header claims ++ (dot ∷ signature)))
      ≡ ok (kind, (header, claims, signature))
unfolding token_parts three_parts
token_parts-signed kind header claims signature v w z =
    let parts : split_dots (signing_input header claims ++ (dot ∷ signature))
        ≡ header ∷ claims ∷ signature ∷ [] =
      ap split_dots (append_assoc header (dot ∷ claims) (dot ∷ signature))
      ∙ (split_dots-dot header (claims ++ (dot ∷ signature)) v
          ∙ ap (λ cs. header ∷ cs)
              (split_dots-dot claims signature w
                ∙ ap (λ cs. claims ∷ cs) (split_dots-last signature z))) in
    rw (from_prefix-prefix kind (signing_input header claims ++ (dot ∷ signature)), parts) refl

same_kind_refl : (kind : TokenKind) → same_kind kind kind ≡ true
same_kind_refl user = refl
same_kind_refl proxy = refl
same_kind_refl internal = refl

-- What the checks of `sign_claims` say of the claims.
record IsLive (claims : XetClaims) (kind : TokenKind) : Type 0 where
  typed : eq_bytes claims.token_type (token_type kind) ≡ true
  has_kid : is_empty claims.kid ≡ false
  short : claims.exp ≤ claims.iat + max_token_lifetime_secs

validated-IsLive :
    (l : Libraries) (claims : XetClaims) (kind : TokenKind) {u : Unit {0}}
    → validate_claims_for_kind l claims kind ≡ ok u
    → IsLive claims kind
unfolding validate_claims_for_kind
validated-IsLive l claims kind e =
    let (u₁, e₁, r₁) =
      bind-eq-ok
        (err_if (not (eq_bytes claims.token_type (token_type kind)) || is_empty claims.kid) _) _
        e in
    let (lifetime, e₂, r₂) = bind-eq-ok (or_err (checked_sub claims.exp claims.iat) _) _ r₁ in
    let (u₃, e₃, r₃) =
      bind-eq-ok (err_if ((lifetime == 0) || ltb max_token_lifetime_secs lifetime) _) _ r₂ in
    let a =
      err_if-ok (not (eq_bytes claims.token_type (token_type kind)) || is_empty claims.kid) _ e₁ in
    let b = or_err-some (checked_sub claims.exp claims.iat) _ e₂ in
    let c = err_if-ok ((lifetime == 0) || ltb max_token_lifetime_secs lifetime) _ e₃ in
    record { typed = ground (arith, a); has_kid = ground (arith, a); short = ground (arith, b, c) }

module _ (l : Libraries) (public : List ℕ → List ℕ) (good : HasRoundTrips l public) where
  decode_header-signed :
      (claims : XetClaims) (bs : List ℕ)
      → l.header_to_vec (signed_header claims) ≡ some bs
      → is_empty claims.kid ≡ false
      → decode_header l (l.encode bs) ≡ ok (signed_header claims)
  unfolding decode_header
  decode_header-signed claims bs e k =
      let (back, bytes) = good.header_back (signed_header claims) bs e in
      rw (good.decode_encode bs bytes, back, eq_bytes_refl eddsa, eq_bytes_refl jwt, k) refl

  -- A token that `sign_claims` makes is one that `verify_token` accepts under the key's public key, the
  -- kid of the claims and the kind that was signed, from the time at which it was issued until it
  -- expires, and gives the claims that were signed.
  pub verify_token-sign_claims :
      (claims : XetClaims) (key : List ℕ) (kind : TokenKind) (now : ℕ) (token : List ℕ)
      → sign_claims l claims key kind ≡ ok token
      → claims.iat ≤ now
      → now < claims.exp
      → verify_token l (some now) token (public key) claims.kid kind ≡ ok claims
  unfolding sign_claims verify_token verify_token_any_kind
  verify_token-sign_claims claims key kind now token e issued live =
      let (u₁, e₁, r₁) = bind-eq-ok (validate_claims_for_kind l claims kind) _ e in
      let (hs, e₂, r₂) = bind-eq-ok (or_err (l.header_to_vec (signed_header claims)) _) _ r₁ in
      let (cs, e₃, r₃) = bind-eq-ok (or_err (l.claims_to_vec claims) _) _ r₂ in
      let v = validated-IsLive l claims kind e₁ in
      let input : List ℕ = signing_input (l.encode hs) (l.encode cs) in
      let parts =
        token_parts-signed kind (l.encode hs) (l.encode cs) (l.encode (l.sign key input))
          (good.encode_plain hs) (good.encode_plain cs) (good.encode_plain (l.sign key input)) in
      let header =
        decode_header-signed claims hs (or_err-some (l.header_to_vec (signed_header claims)) _ e₂)
          v.has_kid in
      let (claims_back, claims_bytes) =
        good.claims_back claims cs (or_err-some (l.claims_to_vec claims) _ e₃) in
      let (signature_back, signature_bytes) = good.signature_back key input in
      let in_time : leb claims.exp now ≡ false = ground (arith, live) in
      let issued_before : ltb now claims.iat ≡ false = ground (arith, issued) in
      let recent : ltb max_token_lifetime_secs (now - claims.iat) ≡ false =
        ground (arith, v.short, live) in
      ap (λ t. verify_token l (some now) t (public key) claims.kid kind) (sym (ok-injective r₃))
      ∙ rw
          (
            parts,
            header,
            eq_bytes_refl claims.kid,
            good.decode_encode (l.sign key input) signature_bytes,
            signature_back,
            good.verify_sign key input,
            good.decode_encode cs claims_bytes,
            claims_back,
            eq_bytes_refl claims.kid,
            v.typed,
            in_time,
            issued_before,
            recent,
            e₁,
            same_kind_refl kind,
          )
          refl
