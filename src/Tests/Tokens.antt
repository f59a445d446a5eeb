-- ===== src/Tests/Tokens.antt =====
-- A token of a user, over libraries that know one header and the claims of one token.
use xet_server.Prelude.{
  ℕ, ◌+◌, ◌-◌, ◌≡◌, ◌≢◌, refl, sym, ap, subst, arith, Bool, true, false, ◌&&◌, ◌==◌, ==_iff,
  Bool-cases, inl, inr, Option, none, some, List, [], ◌∷◌, map, All, IsByte, if◌then◌else◌,
}
use xet_server.Bytes.{eq_bytes, eq_bytes→eq}
use xet_server.AuthTypes.{
  XetClaims, user, ok, JwtHeader, Libraries, prefix, token_type, dot, eddsa, jwt, validate_proxy,
  validate_claims_for_kind, signed_header, sign_claims, verify_token,
}
use xet_server.AuthTypes.RoundTrip.{HasRoundTrips, verify_token-sign_claims}

abbrev some_claims : XetClaims
some_claims = record {
  sub = 97 ∷ [];
  scope = 114 ∷ [];
  repo_id = 109 ∷ [];
  repo_type = 100 ∷ [];
  revision = 118 ∷ [];
  exp = 3600;
  iat = 100;
  kid = 107 ∷ [];
  token_type = 117 ∷ 115 ∷ 101 ∷ 114 ∷ [];
  oid = none;
  operation = none;
}

is_none : Option (List ℕ) → Bool
is_none none = true
is_none (some a) = false

is_some_claims : XetClaims → Bool
is_some_claims c =
    eq_bytes c.sub some_claims.sub
    && (eq_bytes c.scope some_claims.scope
        && (eq_bytes c.repo_id some_claims.repo_id
            && (eq_bytes c.repo_type some_claims.repo_type
                && (eq_bytes c.revision some_claims.revision
                    && ((c.exp == 3600)
                        && ((c.iat == 100)
                            && (eq_bytes c.kid some_claims.kid
                                && (eq_bytes c.token_type some_claims.token_type
                                    && (is_none c.oid && is_none c.operation)))))))))

both : (a b : Bool) → (a && b) ≡ true → (a ≡ true) × (b ≡ true)
both a b e = (ground (arith, e), ground (arith, e))

nothing : (o : Option (List ℕ)) → is_none o ≡ true → o ≡ none
unfolding is_none
nothing none e = refl
nothing (some a) e = cc

same_claims : (c : XetClaims) → is_some_claims c ≡ true → c ≡ some_claims
unfolding is_some_claims
same_claims c e =
    let (e₁, r₁) = both (eq_bytes c.sub some_claims.sub) _ e in
    let (e₂, r₂) = both (eq_bytes c.scope some_claims.scope) _ r₁ in
    let (e₃, r₃) = both (eq_bytes c.repo_id some_claims.repo_id) _ r₂ in
    let (e₄, r₄) = both (eq_bytes c.repo_type some_claims.repo_type) _ r₃ in
    let (e₅, r₅) = both (eq_bytes c.revision some_claims.revision) _ r₄ in
    let (e₆, r₆) = both (c.exp == 3600) _ r₅ in
    let (e₇, r₇) = both (c.iat == 100) _ r₆ in
    let (e₈, r₈) = both (eq_bytes c.kid some_claims.kid) _ r₇ in
    let (e₉, r₉) = both (eq_bytes c.token_type some_claims.token_type) _ r₈ in
    let (e₀, r₀) = both (is_none c.oid) _ r₉ in
    λ i. record {
      sub = eq_bytes→eq c.sub some_claims.sub e₁ i;
      scope = eq_bytes→eq c.scope some_claims.scope e₂ i;
      repo_id = eq_bytes→eq c.repo_id some_claims.repo_id e₃ i;
      repo_type = eq_bytes→eq c.repo_type some_claims.repo_type e₄ i;
      revision = eq_bytes→eq c.revision some_claims.revision e₅ i;
      exp = (==_iff c.exp 3600).0 e₆ i;
      iat = (==_iff c.iat 100).0 e₇ i;
      kid = eq_bytes→eq c.kid some_claims.kid e₈ i;
      token_type = eq_bytes→eq c.token_type some_claims.token_type e₉ i;
      oid = nothing c.oid e₀ i;
      operation = nothing c.operation r₀ i;
    }

is_some_header : JwtHeader → Bool
is_some_header h = eq_bytes h.alg eddsa && (eq_bytes h.typ jwt && eq_bytes h.kid (107 ∷ []))

same_header : (h : JwtHeader) → is_some_header h ≡ true → h ≡ signed_header some_claims
unfolding is_some_header
same_header h e =
    let (e₁, r₁) = both (eq_bytes h.alg eddsa) _ e in
    let (e₂, r₂) = both (eq_bytes h.typ jwt) _ r₁ in
    λ i. record {
      alg = eq_bytes→eq h.alg eddsa e₁ i;
      typ = eq_bytes→eq h.typ jwt e₂ i;
      kid = eq_bytes→eq h.kid (107 ∷ []) r₂ i;
    }

-- Every signature is the byte 3.
abbrev some_libraries : Libraries
some_libraries = record {
  encode = λ bs. map (λ b. b + 47) bs;
  decode = λ bs. some (map (λ b. b - 47) bs);
  header_to_vec = λ h. if is_some_header h then some (1 ∷ []) else none;
  header_from_slice = λ bs. some (signed_header some_claims);
  claims_to_vec = λ c. if is_some_claims c then some (2 ∷ []) else none;
  claims_from_slice = λ bs. some some_claims;
  sign = λ key message. 3 ∷ [];
  signature_from_slice = λ bs. some bs;
  verify = λ key message signature. eq_bytes signature (3 ∷ []);
  trim = λ bs. bs;
}

add_back : (bs : List ℕ) → map (λ b. b - 47) (map (λ b. b + 47) bs) ≡ bs
add_back [] = refl
add_back (b ∷ bs) = λ i. omega_step b i ∷ add_back bs i
  where
    omega_step : (b : ℕ) → b + 47 - 47 ≡ b
    omega_step b = omega arith

no_dot : (bs : List ℕ) → All (λ (b : ℕ). b ≢ dot) (map (λ b. b + 47) bs)
no_dot [] = tt
no_dot (b ∷ bs) = (λ q. absurd (omega (arith, q)), no_dot bs)

some_libraries-HasRoundTrips : HasRoundTrips some_libraries (λ key. key)
unfolding eq_bytes
some_libraries-HasRoundTrips = record {
  decode_encode = λ bs v. ap some (add_back bs);
  encode_plain = no_dot;
  header_back = λ h bs e. elim (Bool-cases (is_some_header h)) [
    | inl t ↦
        let w : some (1 ∷ []) ≡ some bs = rw t at e in
        (ap some (sym (same_header h t)), subst (All IsByte) (inside w) (omega arith, tt))
    | inr f ↦ let w : none ≡ some bs = rw f at e in cc
  ];
  claims_back = λ c bs e. elim (Bool-cases (is_some_claims c)) [
    | inl t ↦
        let w : some (2 ∷ []) ≡ some bs = rw t at e in
        (ap some (sym (same_claims c t)), subst (All IsByte) (inside w) (omega arith, tt))
    | inr f ↦ let w : none ≡ some bs = rw f at e in cc
  ];
  signature_back = λ key message. (refl, (omega arith, tt));
  verify_sign = λ key message. refl;
}
  where
    inside : {a b : List ℕ} → some a ≡ some b → a ≡ b
    inside e = cc

-- What `sign_claims` makes of the claims.
abbrev some_token : List ℕ
some_token = 120 ∷ 101 ∷ 116 ∷ 95 ∷ 48 ∷ 46 ∷ 49 ∷ 46 ∷ 50 ∷ []

signed : sign_claims some_libraries some_claims (9 ∷ []) user ≡ ok some_token
unfolding sign_claims validate_claims_for_kind validate_proxy eq_bytes token_type prefix
    is_some_header is_some_claims is_none
signed = refl

verify_token-sign_claims_example :
    verify_token some_libraries (some 200) some_token (9 ∷ []) (107 ∷ []) user ≡ ok some_claims
verify_token-sign_claims_example =
    verify_token-sign_claims some_libraries (λ key. key) some_libraries-HasRoundTrips some_claims
      (9 ∷ []) user 200 some_token signed (omega arith) (omega arith)
