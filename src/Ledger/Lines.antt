-- ===== src/Ledger/Lines.antt =====
-- A line of a ledger as `json.loads` returns it. `other` stands for a JSON value that is neither null,
-- a natural number nor a string, and holds the text that `str` gives of it.
use sara_pro.Prelude.{
  ℕ, ◌≡◌, refl, List, [], ◌∷◌, ◌++◌, Option, none, some, Bool, false, ◌||◌, ◌&&◌, arith, ◌==◌,
  if◌then◌else◌,
}
use sara_pro.Bytes.{Text, text, text_eq, text_in, decimal}

pub data Json : Type 0 where
  null : Json
  num : ℕ → Json
  str : Text → Json
  other : Text → Json

abbrev pub Object : Type 0
Object = List (Text × Json)

-- What `json.loads` makes of the text of a line: an object, or it raises, as it does on white space.
pub data Line : Type 0 where
  malformed : Line
  blank : Line
  object : Object → Line

-- `o.get(k)`
unfoldable pub get : Text → Object → Option Json
get k [] = none
get k ((j, v) ∷ o) = if text_eq j k then some v else get k o

-- `o.pop(k, None)`, as far as what stays in `o`
unfoldable pub remove : Text → Object → Object
remove k [] = []
remove k ((j, v) ∷ o) = if text_eq j k then remove k o else (j, v) ∷ remove k o

-- `v == n` of another value: `True` is 1, `False` is 0, and the float n is spelled "n.0" below 10 ** 16
abbrev pub equals_num : Text → ℕ → Bool
equals_num s n =
    text_eq s (decimal n ++ text ".0")
    || (n == 1 && text_eq s (text "True"))
    || (n == 0 && text_in s (text "False" ∷ text "-0.0" ∷ []))

-- `o.get(k) == n`, `o.get(k) == t`
abbrev pub is_num : Option Json → ℕ → Bool
is_num (some (num m)) n = m == n
is_num (some (other s)) n = equals_num s n
is_num _ n = false

abbrev pub is_str : Option Json → Text → Bool
is_str (some (str s)) t = text_eq s t
is_str _ t = false

-- `rows[-1]`
unfoldable pub last : List Object → Option Object
last [] = none
last (o ∷ []) = some o
last (o ∷ p ∷ l) = last (p ∷ l)

pub last-append : (l : List Object) (o : Object) → last (l ++ o ∷ []) ≡ some o
unfolding last
last-append [] o = refl
last-append (p ∷ []) o = refl
last-append (p ∷ q ∷ l) o = last-append (q ∷ l) o

-- `"0" * 64`
abbrev pub genesis : Text
genesis = text "0000000000000000000000000000000000000000000000000000000000000000"

-- The file of a ledger, as `_read` finds it: absent, not private or not regular, its lines with their
-- newlines, or such lines before one that no newline ends.
pub data LedgerFile : Type 0 where
  absent : LedgerFile
  unsafe : LedgerFile
  lines : List Line → LedgerFile
  unended : List Line → Line → LedgerFile

-- A file to which a line can be appended as one of its own.
abbrev pub Ended : LedgerFile → Type 0
Ended (unended l x) = ⊥
Ended absent = Unit
Ended unsafe = Unit
Ended (lines l) = Unit

-- A write with O_APPEND | O_CREAT and `fchmod(0o600)` of a line with its newline. Behind a line that no
-- newline ends the text joins that line, and two JSON texts in a row are not one.
unfoldable pub append_line : LedgerFile → Object → LedgerFile
append_line absent o = lines (object o ∷ [])
append_line unsafe o = unsafe
append_line (lines l) o = lines (l ++ object o ∷ [])
append_line (unended l x) o = lines (l ++ malformed ∷ [])

pub get-append :
    (k : Text) (o : Object) (j : Text) (v : Json)
    → get k o ≡ none
    → get k (o ++ (j, v) ∷ []) ≡ (if text_eq j k then some v else none)
unfolding get
get-append k [] j v h = refl
get-append k ((i, w) ∷ o) j v h = ground (arith, get-append k o j v)

pub get-append_old :
    (k : Text) (o : Object) (j : Text) (v w : Json)
    → get k o ≡ some w
    → get k (o ++ (j, v) ∷ []) ≡ some w
unfolding get
get-append_old k [] j v w h = cc
get-append_old k ((i, u) ∷ o) j v w h = ground (arith, get-append_old k o j v w)

pub get-remove_self : (k : Text) (o : Object) → get k (remove k o) ≡ none
unfolding get remove
get-remove_self k [] = refl
get-remove_self k ((i, w) ∷ o) = ground (arith, get-remove_self k o)
