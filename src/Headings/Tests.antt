-- ===== src/Headings/Tests.antt =====
-- Headings of a document that rag/block_parser.py opens.
use hommey.Text.{codes}
use hommey.Headings.{HeadingStack, current_path, push}
use hommey.Headings.Levels.{Nested, push-Nested}
use hommey.Prelude.{[], arith, refl, ◌∷◌, ◌≡◌}

abbrev opened : HeadingStack
opened = (3, codes "Limits") ∷ (2, codes "Hotels") ∷ (1, codes "Travel") ∷ []

path_run : current_path (push 2 (codes "Trains") opened) ≡ codes "Travel" ∷ codes "Trains" ∷ []
unfolding push current_path
path_run = refl

push-Nested_example :
    (push 2 (codes "Trains") opened ≡ (2, codes "Trains") ∷ (1, codes "Travel") ∷ [])
    × Nested (push 2 (codes "Trains") opened)
push-Nested_example = push-Nested 2 (codes "Trains") opened (omega arith, (omega arith, tt))
