-- ===== src/Py/Result.antt =====
-- A call that may raise. An exception leaves the database transaction uncommitted, so it carries
-- no state: the caller goes on from the state before the call.
use agentic_ops_platform.Prelude.{String, Bool, true, false, ◌≡◌, refl, ◌⊎◌, inl, inr}

pub data Exception : Type 0 where
  -- raised by the source itself
  value_error claim_error : String → Exception
  -- raised by PostgreSQL: a foreign key or a primary key is violated
  integrity_error : Exception
  -- raised by SQLAlchemy: a statement sets a column that the table does not have
  unconsumed_column : String → Exception
  -- raised by the driver: a value does not fit its column
  data_error : Exception
  -- an attribute of None
  attribute_error : Exception
  -- a failed assert
  assertion_error : Exception
  -- int() of a value that is no number and no text
  type_error : Exception
  -- no exception of the source: the fuel of a loop ran out
  out_of_fuel : Exception

-- What a call hands to its caller.
pub data Result {u} (Value : Type u) : Type u where
  raise : Exception → Result Value
  ok : Value → Result Value

-- An exception skips the rest.
infixl 5 ◌>>=◌
abbrev pub ◌>>=◌ {u v} :
    {Value : Type u} {Next : Type v} → Result Value → (Value → Result Next) → Result Next
raise exception >>= rest = raise exception
ok value >>= rest = rest value

-- If a call and what follows it succeed, each of them does.
pub >>=-eq-ok {u v} :
    {Value : Type u} {Next : Type v} (first : Result Value) (rest : Value → Result Next)
    {last : Next}
    → (first >>= rest) ≡ ok last
    → (value : Value) × (first ≡ ok value) × (rest value ≡ ok last)
>>=-eq-ok (raise exception) rest both = cc
>>=-eq-ok (ok value) rest both = (value, refl, both)

pub Result-cases {ℓ} :
    {A : Type ℓ} (m : Result A) → ((a : A) × (m ≡ ok a)) ⊎ ((e : Exception) × (m ≡ raise e))
Result-cases (ok a) = inl (a, refl)
Result-cases (raise e) = inr (e, refl)

-- Enough fuel was given.
abbrev pub ends {u} : {Value : Type u} → Result Value → Bool
ends (raise out_of_fuel) = false
ends _ = true

pub >>=-ends {u v} :
    {Value : Type u} {Next : Type v} (first : Result Value) (rest : Value → Result Next)
    → ends first ≡ true
    → ((value : Value) → ends (rest value) ≡ true)
    → ends (first >>= rest) ≡ true
>>=-ends (ok value) rest one two = two value
>>=-ends (raise (value_error s)) rest one two = refl
>>=-ends (raise (claim_error s)) rest one two = refl
>>=-ends (raise integrity_error) rest one two = refl
>>=-ends (raise (unconsumed_column s)) rest one two = refl
>>=-ends (raise data_error) rest one two = refl
>>=-ends (raise attribute_error) rest one two = refl
>>=-ends (raise assertion_error) rest one two = refl
>>=-ends (raise type_error) rest one two = refl
>>=-ends (raise out_of_fuel) rest one two = cc
