-- ===== src/Error.antt =====
-- src/error.rs: `ApiError` and its HTTP form, and the `Result` in which handlers chain by `?`.
-- A message is kept as the parts that `format!` joins: `quoted s` is `{s:?}`, `shown s` is `{s}`.
use tux_bridge.Prelude.{
  ℕ, String, Str, ◌⊎◌, inl, inr, List, [], ◌∷◌, ◌≡◌, refl, Bool, true, false, Option, none, some,
}

pub data Part : Type 0 where
  text : String → Part
  quoted shown : Str → Part
  number : ℕ → Part

abbrev pub Message : Type 0
Message = List Part

abbrev pub says : String → Message
says s = text s ∷ []

pub data ApiError : Type 0 where
  bad_request conflict forbidden not_found unsupported internal : Message → ApiError

-- `Display`
unfoldable pub display : ApiError → Message
display (bad_request m) = m
display (conflict m) = m
display (forbidden m) = m
display (not_found m) = m
display (unsupported m) = m
display (internal m) = m

pub record ErrorResponse : Type 0 where
  pub status : ℕ
  pub error : String
  pub message : Message

-- `IntoResponse`
unfoldable pub into_response : ApiError → ErrorResponse
into_response (bad_request m) = record { status = 400; error = "bad_request"; message = m }
into_response (conflict m) = record { status = 409; error = "conflict"; message = m }
into_response (forbidden m) = record { status = 403; error = "forbidden"; message = m }
into_response (not_found m) = record { status = 404; error = "not_found"; message = m }
into_response (unsupported m) = record {
  status = 415;
  error = "unsupported_media_type";
  message = m;
}
into_response (internal m) = record { status = 500; error = "internal_error"; message = m }

pub data Result {ℓ} (A : Type ℓ) (E : Type 0) : Type ℓ where
  ok : A → Result A E
  err : E → Result A E

abbrev pub ApiResult {ℓ} : Type ℓ → Type ℓ
ApiResult A = Result A ApiError

infixl 5 ◌>>=◌ ◌>>◌
abbrev pub ◌>>=◌ {ℓ κ} :
    {A : Type ℓ} {B : Type κ} {E : Type 0} → Result A E → (A → Result B E) → Result B E
ok a >>= f = f a
err e >>= f = err e

abbrev pub ◌>>◌ {ℓ} : {B : Type ℓ} {E : Type 0} → Result (Unit {0}) E → Result B E → Result B E
m >> k = m >>= λ _. k

-- `if test { return Err(e); }`
abbrev pub refuse_if : {E : Type 0} → Bool → E → Result (Unit {0}) E
refuse_if true e = err e
refuse_if false e = ok tt

-- `ok_or_else`, `map_err`
abbrev pub ok_or {ℓ} : {A : Type ℓ} {E : Type 0} → Option A → E → Result A E
ok_or none e = err e
ok_or (some a) e = ok a

abbrev pub map_err {ℓ} : {A : Type ℓ} {E F : Type 0} → (E → F) → Result A E → Result A F
map_err f (ok a) = ok a
map_err f (err e) = err (f e)

abbrev pub is_ok {ℓ} : {A : Type ℓ} {E : Type 0} → Result A E → Bool
is_ok (ok a) = true
is_ok (err e) = false

-- Inversion of a refusal in front of a chain.
pub refuse_if-eq-ok {ℓ} :
    {B : Type ℓ} {E : Type 0} (b : Bool) (e : E) (k : Result B E) {r : B}
    → (refuse_if b e >> k) ≡ ok r
    → (b ≡ false) × (k ≡ ok r)
refuse_if-eq-ok true e k h = cc
refuse_if-eq-ok false e k h = (refl, h)

pub Result-cases {ℓ} :
    {A : Type ℓ} {E : Type 0} (m : Result A E) → ((a : A) × (m ≡ ok a)) ⊎ ((e : E) × (m ≡ err e))
Result-cases (ok a) = inl (a, refl)
Result-cases (err e) = inr (e, refl)

-- A chain that succeeds has succeeded in its first step, and from there.
pub data Ran {ℓ κ} {A : Type ℓ} {B : Type κ} {E : Type 0} (first : Result A E)
    (rest : A → Result B E) (b : B) : Type (ℓ ⊔ κ) where
  ran : (a : A) → first ≡ ok a → rest a ≡ ok b → Ran first rest b

pub chain-Ran {ℓ κ} :
    {A : Type ℓ} {B : Type κ} {E : Type 0} {b : B} (first : Result A E) (rest : A → Result B E)
    → (first >>= rest) ≡ ok b
    → Ran first rest b
chain-Ran (err e) rest h = cc
chain-Ran (ok a) rest h = ran a refl h

-- Two values of one result are the same.
pub ok_inj : {A E : Type 0} {a b : A} {r : Result A E} → r ≡ ok a → r ≡ ok b → a ≡ b
ok_inj h k = cc

pub ok_or-some : {A : Type 0} (o : Option A) (e : ApiError) (a : A) → ok_or o e ≡ ok a → o ≡ some a
ok_or-some none e a h = cc
ok_or-some (some b) e a h = cc
