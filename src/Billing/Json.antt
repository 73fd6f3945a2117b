-- ===== src/Billing/Json.antt =====
-- Untrusted JSON, with the operations of Python that services/billing_payment_rules.py applies to
-- it. Numbers with a fraction are left out.
use Prim.Native.String.{◌∷◌ as next_char, [] as no_chars}
use scientific_research_rada.Prelude.{
  ℕ, String, Bool, true, false, not, List, [], ◌∷◌, Option, none, some, length, str_eq,
  if◌then◌else◌, ◌≡◌, ap, sym, ◌∙◌,
}
use scientific_research_rada.Prelude.Outcome.{Outcome, ok, raised, ok-injective}
use scientific_research_rada.Billing.Integers.{ℤ, pos, same_int}

mutual
  pub data Json : Type 0 where
    null : Json
    boolean : Bool → Json
    number : ℤ → Json
    text : String → Json
    array : Items → Json
    object : Members → Json

  pub data Items : Type 0 where
    no_items : Items
    item : Json → Items → Items

  pub data Members : Type 0 where
    no_members : Members
    member : String → Json → Members → Members

-- `Error` of the payment rules, or an exception of Python that none of them catches.
pub data Failure : Type 0 where
  error : String → ℕ → Failure
  attribute_error : Failure
  type_error : Failure

abbrev pub Checked : Type 0 → Type 0
Checked A = Outcome Failure A

abbrev pub item_list : Items → List Json
item_list no_items = []
item_list (item x xs) = x ∷ item_list xs

unfoldable pub find : String → Members → Option Json
find key no_members = none
find key (member k x rest) = let other = find key rest in if str_eq k key then some x else other

abbrev pub or_value : Option Json → Json → Json
or_value none x = x
or_value (some y) x = y

-- `value.get(key, default)`
unfoldable pub get_or : Json → String → Json → Checked Json
unfolding find
get_or (object ms) key other = ok (or_value (find key ms) other)
get_or _ key other = raised Failure.attribute_error

-- `value.get(key)`
abbrev pub get : Json → String → Checked Json
get value key = get_or value key null

-- `bool(value)`
abbrev pub truthy : Json → Bool
truthy null = false
truthy (boolean b) = b
truthy (number n) = not (same_int n (pos 0))
truthy (text s) = not (str_eq s "")
truthy (array no_items) = false
truthy (array (item _ _)) = true
truthy (object no_members) = false
truthy (object (member _ _ _)) = true

-- `a or b`
abbrev pub or_else : Json → Json → Json
or_else a b = if truthy a then a else b

abbrev pub empty_object : Json
empty_object = object no_members

-- `a is b` for a Boolean `b`
abbrev pub is_boolean : Json → Bool → Bool
is_boolean (boolean true) b = b
is_boolean (boolean false) b = not b
is_boolean _ b = false

-- `a == s` for a text `s`
abbrev pub is_text : Json → String → Bool
is_text (text t) s = str_eq t s
is_text _ s = false

-- `a == s` for a column that may be null
abbrev pub is_column : Json → Option String → Bool
is_column null none = true
is_column a (some s) = is_text a s
is_column _ none = false

-- `a == n` for an integer `n`: `True` is 1 and `False` is 0.
abbrev pub is_number : Json → ℤ → Bool
is_number (number m) n = same_int m n
is_number (boolean true) n = same_int (pos 1) n
is_number (boolean false) n = same_int (pos 0) n
is_number _ n = false

abbrev member_keys : Members → List Json
member_keys no_members = []
member_keys (member k x rest) = text k ∷ member_keys rest

abbrev characters : String → List Json
characters no_chars = []
characters (next_char c s) = text (next_char c no_chars) ∷ characters s

-- The elements that a loop over the value has.
abbrev pub iterate : Json → Checked (List Json)
iterate (text s) = ok (characters s)
iterate (array xs) = ok (item_list xs)
iterate (object ms) = ok (member_keys ms)
iterate _ = raised Failure.type_error

-- `len(value)`
abbrev pub len : Json → Checked ℕ
len (text s) = ok (length (characters s))
len (array xs) = ok (length (item_list xs))
len (object ms) = ok (length (member_keys ms))
len _ = raised Failure.type_error

pub length-iterate :
    (value : Json) {n : ℕ} {xs : List Json}
    → len value ≡ ok n
    → iterate value ≡ ok xs
    → length xs ≡ n
length-iterate (text s) h k = ap length (sym (ok-injective k)) ∙ ok-injective h
length-iterate (array items) h k = ap length (sym (ok-injective k)) ∙ ok-injective h
length-iterate (object ms) h k = ap length (sym (ok-injective k)) ∙ ok-injective h
length-iterate null h k = absurd (cc)
length-iterate (boolean b) h k = absurd (cc)
length-iterate (number i) h k = absurd (cc)
