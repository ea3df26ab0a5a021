-- ===== src/Session/Values.antt =====
-- The values of a decoded token or of a JSON reply, results with the message of a `SessionTokenError`,
-- and dicts whose keys are compared by an instance.
use gc_image_stream.Prelude.{
  ℕ, String, Bool, true, false, not, ◌||◌, Option, none, some, ltb, leb, ◌==◌, nat_eq, string_eq,
  if◌then◌else◌, ◌≡◌, refl, ◌⊎◌, inl, inr,
}

-- An integer: `pos n` is n and `negsuc n` is -(n + 1).
pub data ℤ : Type 0 where
  pos negsuc : ℕ → ℤ

abbrev pub int_ltb : ℤ → ℤ → Bool
int_ltb (pos a) (pos b) = ltb a b
int_ltb (pos a) (negsuc b) = false
int_ltb (negsuc a) (pos b) = true
int_ltb (negsuc a) (negsuc b) = ltb b a

abbrev pub int_beq : ℤ → ℤ → Bool
int_beq (pos a) (pos b) = a == b
int_beq (pos a) (negsuc b) = false
int_beq (negsuc a) (pos b) = false
int_beq (negsuc a) (negsuc b) = a == b

-- `a <= n`, for a time n.
abbrev pub is_at_most : ℤ → ℕ → Bool
is_at_most (pos a) n = leb a n
is_at_most (negsuc a) n = true

mutual
  pub data Value : Type 0 where
    null : Value
    text : String → Value
    integer : ℤ → Value
    real : String → Value
    boolean : Bool → Value
    array : Values → Value
    object : Fields → Value

  pub data Values : Type 0 where
    nil : Values
    item : Value → Values → Values

  pub data Fields : Type 0 where
    end : Fields
    field : String → Value → Fields → Fields

-- `mapping.get(name)`
unfoldable pub get_field : Fields → String → Value
get_field end name = null
get_field (field n v fields) name =
    let rest = get_field fields name in if n == name then v else rest

abbrev pub is_text : Value → String → Bool
is_text (text s) t = s == t
is_text null t = false
is_text (integer n) t = false
is_text (real r) t = false
is_text (boolean b) t = false
is_text (array vs) t = false
is_text (object fields) t = false

-- `value is True`
abbrev pub is_true : Value → Bool
is_true (boolean b) = b
is_true null = false
is_true (text s) = false
is_true (integer n) = false
is_true (real r) = false
is_true (array vs) = false
is_true (object fields) = false

-- `value is None`
abbrev pub is_null : Value → Bool
is_null null = true
is_null (text s) = false
is_null (integer n) = false
is_null (real r) = false
is_null (boolean b) = false
is_null (array vs) = false
is_null (object fields) = false

-- The truth value of a JSON value. A float is kept as its text.
abbrev pub truth : Value → Bool
truth null = false
truth (text s) = not (s == "")
truth (integer (pos n)) = not (n == 0)
truth (integer (negsuc n)) = true
truth (real r) = not (r == "0.0" || r == "-0.0")
truth (boolean b) = b
truth (array nil) = false
truth (array (item v vs)) = true
truth (object end) = false
truth (object (field n v fs)) = true

-- `value if isinstance(value, str)`
abbrev pub as_text : Value → Option String
as_text (text s) = some s
as_text null = none
as_text (integer n) = none
as_text (real r) = none
as_text (boolean b) = none
as_text (array vs) = none
as_text (object fields) = none

-- `value if isinstance(value, int)`: a Boolean is an `int`.
abbrev pub as_int : Value → Option ℤ
as_int (integer n) = some n
as_int (boolean true) = some (pos 1)
as_int (boolean false) = some (pos 0)
as_int null = none
as_int (text s) = none
as_int (real r) = none
as_int (array vs) = none
as_int (object fields) = none

-- `value if isinstance(value, Mapping)`
abbrev pub as_object : Value → Option Fields
as_object (object fields) = some fields
as_object null = none
as_object (text s) = none
as_object (integer n) = none
as_object (real r) = none
as_object (boolean b) = none
as_object (array vs) = none

-- `value if isinstance(value, list)`
abbrev pub as_list : Value → Option Values
as_list (array vs) = some vs
as_list null = none
as_list (text s) = none
as_list (integer n) = none
as_list (real r) = none
as_list (boolean b) = none
as_list (object fields) = none

-- A result, or the message of a `SessionTokenError`.
pub data Checked {ℓ} (A : Type ℓ) : Type ℓ where
  ok : A → Checked A
  refused : String → Checked A

infixl 5 ◌>>=◌ ◌>>◌
unfoldable pub ◌>>=◌ {ℓ κ} : {A : Type ℓ} {B : Type κ} → Checked A → (A → Checked B) → Checked B
ok a >>= f = f a
refused m >>= f = refused m

abbrev pub ◌>>◌ {ℓ} : {B : Type ℓ} → Checked (Unit {0}) → Checked B → Checked B
m >> k = m >>= λ _. k

abbrev pub require : Bool → String → Checked (Unit {0})
require true message = ok tt
require false message = refused message

abbrev pub found_or {ℓ} : {A : Type ℓ} → Option A → String → Checked A
found_or (some a) message = ok a
found_or none message = refused message

-- The parts of a chain that succeeds.
pub >>=-ok {ℓ κ} :
    {A : Type ℓ} {B : Type κ} (m : Checked A) (f : A → Checked B) {b : B}
    → (m >>= f) ≡ ok b
    → (a : A) × (m ≡ ok a) × (f a ≡ ok b)
unfolding ◌>>=◌
>>=-ok (ok a) f h = (a, refl, h)
>>=-ok (refused e) f h = cc

-- The same, for a goal that the parts give.
pub from_ok {ℓ κ ι} :
    {A : Type ℓ} {B : Type κ} {G : Type ι} (m : Checked A) (f : A → Checked B) {b : B}
    → (m >>= f) ≡ ok b
    → ((a : A) → m ≡ ok a → f a ≡ ok b → G)
    → G
from_ok m f h k = let (a, e, g) = >>=-ok m f h in k a e g

pub require-ok : (b : Bool) (message : String) → require b message ≡ ok tt → b ≡ true
require-ok true message h = refl
require-ok false message h = cc

pub found_or-ok {ℓ} :
    {A : Type ℓ} (o : Option A) (message : String) {a : A} → found_or o message ≡ ok a → o ≡ some a
found_or-ok none message h = cc
found_or-ok (some b) message h = cc

pub ok_inj {ℓ} : {A : Type ℓ} {a b : A} → ok a ≡ ok b → a ≡ b
ok_inj h = cc

pub refused-ne-ok {ℓ} :
    {A : Type ℓ} {a : A} {m : String} → ¬ (◌≡◌ {A = Checked A} (refused m) (ok a))
refused-ne-ok h = cc

pub Checked-cases {ℓ} :
    {A : Type ℓ} (c : Checked A) → ((a : A) × (c ≡ ok a)) ⊎ ((m : String) × (c ≡ refused m))
Checked-cases (ok a) = inl (a, refl)
Checked-cases (refused m) = inr (m, refl)
