-- ===== src/Tests/Polygons.antt =====
-- The polygon validation at concrete rings.
use hsl.Prelude.{◌≡◌, refl, List, [], ◌∷◌}
use hsl.Prelude.Int.{pos}
use hsl.Prelude.Outcome.{ok, raised}
use hsl.Contracts.Polygon.{Point, validate_polygon}

abbrev square : List Point
square = (pos 0, pos 0) ∷ (pos 5, pos 0) ∷ (pos 5, pos 5) ∷ (pos 0, pos 5) ∷ []

abbrev bow_tie : List Point
bow_tie = (pos 0, pos 5) ∷ (pos 9, pos 0) ∷ (pos 9, pos 9) ∷ (pos 0, pos 0) ∷ []

validate_square : validate_polygon square ≡ ok square
unfolding validate_polygon
validate_square = refl

validate_bow_tie : validate_polygon bow_tie ≡ raised "polygon must be simple"
unfolding validate_polygon
validate_bow_tie = refl
