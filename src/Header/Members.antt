-- ===== src/Header/Members.antt =====
-- Members, MembersIn and IsZero of header/header.go. The member names of a JSON text
-- (encoding/json/jsontext) are a parameter, in the order of the text.
use golang_jwt_ci_test.Prelude.{
  Bool, true, false, ◌||◌, ◌&&◌, Option, none, some, List, [], ◌∷◌, Octets, ltb, eqb, text, ◌==◌,
  nat_same, list_same, if◌then◌else◌,
}
use golang_jwt_ci_test.Errors.{Result, ok, err, ◌>>=◌}
use golang_jwt_ci_test.Header.Fields.{Header}
use golang_jwt_ci_test.Header.Codec.{Text, marshal_json}

-- memberNames.UnmarshalJSONFrom over a text; an error for a text that is no JSON object.
abbrev pub Names : Type 0
Names = Octets → Result (List Octets)

-- Go's order of strings.
pub text_leb : Octets → Octets → Bool
text_leb [] ys = true
text_leb (x ∷ xs) [] = false
text_leb (x ∷ xs) (y ∷ ys) = ltb x y || (eqb x y && text_leb xs ys)

-- slices.Sort
pub insert_name : Octets → List Octets → List Octets
insert_name n [] = n ∷ []
insert_name n (m ∷ rest) = if text_leb n m then n ∷ m ∷ rest else m ∷ insert_name n rest

pub sort_names : List Octets → List Octets
sort_names [] = []
sort_names (n ∷ rest) = insert_name n (sort_names rest)

unfoldable pub members_in : Names → Octets → Result (List Octets)
unfolding sort_names insert_name text_leb
members_in names raw = if raw == [] then ok [] else do found ← names raw; ok (sort_names found)

-- A nil header gives none.
unfoldable pub members : Text → Names → Option Header → Result (List Octets)
members t names none = ok []
members t names (some h) = do json ← marshal_json t h; members_in names json

abbrev is_empty_object : Result Octets → Bool
is_empty_object (ok json) = json == text "{}"
is_empty_object (err e) = false

unfoldable pub is_zero : Text → Header → Bool
is_zero t h = is_empty_object (marshal_json t h)
