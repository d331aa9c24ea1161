-- ===== src/Jwa/Algorithm/Tests.antt =====
-- The registry at a name.
use golang_jwt_ci_test.Prelude.{◌≡◌, refl, none, text}
use golang_jwt_ci_test.Jwa.Algorithm.{name, by_name, find_name}

by_name_case : by_name (text "hs256") ≡ none
unfolding by_name find_name name
by_name_case = refl
