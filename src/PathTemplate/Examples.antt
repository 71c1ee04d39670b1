-- ===== src/PathTemplate/Examples.antt =====
-- Tests of the path template reader, and the witness of its theorem.
use mcplica.Common.{◌≡◌, ◌≢◌, refl, List, [], ◌∷◌, Text, codes, ok, err}
use mcplica.PathTemplate.{
  exhausted, path_parameter_names, names_from, expression, split_at_closing, is_invalid_name,
}
use mcplica.PathTemplate.Pieces.{Piece}
use mcplica.PathTemplate.Exact.{IsTemplateOf, path_parameter_names_exact}

abbrev pet_path : Text
pet_path = codes "/p/{id}"

pet_names : path_parameter_names pet_path ≡ ok (codes "id" ∷ [])
unfolding path_parameter_names names_from expression split_at_closing is_invalid_name
pet_names = refl

path_parameter_names_exact_example :
    (path_parameter_names pet_path ≢ err exhausted)
    × (path_parameter_names pet_path ≡ ok (codes "id" ∷ [])
        → (ps : List Piece) × IsTemplateOf pet_path (codes "id" ∷ []) ps)
    × ((ps : List Piece)
        → IsTemplateOf pet_path (codes "id" ∷ []) ps
        → path_parameter_names pet_path ≡ ok (codes "id" ∷ []))
path_parameter_names_exact_example = path_parameter_names_exact pet_path (codes "id" ∷ [])
