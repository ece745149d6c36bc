-- ===== src/Api/Comments/Tests.antt =====
-- The loop over the comments, at an input.
use fastgozero.Prelude.{false, refl, [], ◌∷◌, some, length}
use fastgozero.Prelude.Texts.{codes}
use fastgozero.Api.Reader.{Scanner}
use fastgozero.Api.Comments.{fetch}
use fastgozero.Api.Comments.Ends.{Settles, fetch-Settles}

-- A comment on the line of the current token, another one, and a name.
abbrev comments : Scanner
comments = record {
  filename = [];
  size = length (codes " // a\n// b\nc");
  runes = codes " // a\n// b\nc";
  position = 0;
  read_position = 1;
  ch = b' ';
  lines = 0 ∷ [];
  stuck = false;
}

fetch-Settles_example : Settles (some 1) [] comments (fetch (some 1) [] comments)
fetch-Settles_example =
    fetch-Settles (some 1) [] comments
      (record { sized = refl; next = refl; current = refl; not_stuck = refl })
