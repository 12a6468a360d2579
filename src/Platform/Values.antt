-- ===== src/Platform/Values.antt =====
-- container/platform/lib/validation.mjs: the values that JSON.parse gives, and the tests of their
-- shape. An object keeps its keys in the order of the document, each of them once.
use Prim.Native.Nat.{Ordering}
use dsh_docker.Prelude.{ℕ, List, [], ◌∷◌, Bool, true, false, ◌&&◌, not}
use dsh_docker.Prelude.Tests.{leb, ◌==◌, if◌then◌else◌}
use dsh_docker.Prelude.Lists.{any}
use dsh_docker.Prelude.Text.{Text, text_eq}
use dsh_docker.Prelude.Result.{Result, ok, err, ◌>>◌, guard}
use dsh_docker.Platform.Contracts.{TrustError, invalid, is_safe}
use dsh_docker.Platform.Versions.{compare_text}

mutual
  -- An integer that is not negative, or a number of another form.
  pub data Value : Type 0 where
    undefined : Value
    null : Value
    boolean : Bool → Value
    integer : ℕ → Value
    other_number : Value
    string : Text → Value
    array : Items → Value
    object : Fields → Value

  pub data Items : Type 0 where
    no_items : Items
    item : Value → Items → Items

  pub data Fields : Type 0 where
    no_fields : Fields
    field : Text → Value → Fields → Fields

unfoldable pub to_list : Items → List Value
to_list Items.no_items = []
to_list (Items.item v vs) = v ∷ to_list vs

-- `Object.keys(value)`
unfoldable pub keys : Fields → List Text
keys Fields.no_fields = []
keys (Fields.field key v fs) = key ∷ keys fs

-- `object.name`
unfoldable pub get_field : Fields → Text → Value
unfolding text_eq
get_field Fields.no_fields name = Value.undefined
get_field (Fields.field key v fs) name =
    let rest = get_field fs name in if text_eq key name then v else rest

-- `values.includes(text)`
unfoldable pub includes : List Text → Text → Bool
unfolding text_eq
includes texts t = any (λ x. text_eq x t) texts

-- `new Set(values).size === values.length`
unfoldable pub all_distinct : List Text → Bool
unfolding includes
all_distinct [] = true
all_distinct (t ∷ ts) = not (includes ts t) && all_distinct ts

unfoldable insert : Text → List Text → List Text
unfolding compare_text
insert t [] = t ∷ []
insert t (u ∷ us) =
    let rest = insert t us in elim (compare_text u t) [ Ordering.gt ↦ t ∷ u ∷ us | _ ↦ u ∷ rest ]

-- `values.sort()`
unfoldable pub sort : List Text → List Text
unfolding insert
sort [] = []
sort (t ∷ ts) = insert t (sort ts)

unfoldable pub texts_eq : List Text → List Text → Bool
unfolding text_eq
texts_eq [] [] = true
texts_eq [] (u ∷ us) = false
texts_eq (t ∷ ts) [] = false
texts_eq (t ∷ ts) (u ∷ us) = text_eq t u && texts_eq ts us

unfoldable pub plain_object : Value → Text → Result TrustError Fields
plain_object (Value.object fs) label = ok fs
plain_object _ label = err (invalid label)

unfoldable pub exact_keys : Fields → List Text → Text → Result TrustError (Unit {0})
unfolding keys sort texts_eq
exact_keys fs expected label = guard (texts_eq (sort (keys fs)) (sort expected)) (invalid label)

unfoldable pub positive_safe_integer : Value → Text → Result TrustError ℕ
positive_safe_integer (Value.integer n) label = guard (is_safe n && leb 1 n) (invalid label) >> ok n
positive_safe_integer _ label = err (invalid label)

unfoldable pub safe_integer : Value → Text → Result TrustError ℕ
safe_integer (Value.integer n) label = guard (is_safe n) (invalid label) >> ok n
safe_integer _ label = err (invalid label)

-- `typeof value !== 'string' || !test`
unfoldable pub string_with : (Text → Bool) → Value → Text → Result TrustError Text
string_with test (Value.string t) label = guard (test t) (invalid label) >> ok t
string_with test _ label = err (invalid label)

-- `value !== number`
unfoldable pub is_number : ℕ → Value → Bool
is_number n (Value.integer k) = k == n
is_number n _ = false

-- `Array.isArray(value)`
unfoldable pub list_of : Value → Text → Result TrustError (List Value)
unfolding to_list
list_of (Value.array vs) label = ok (to_list vs)
list_of _ label = err (invalid label)
