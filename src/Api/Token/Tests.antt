-- ===== src/Api/Token/Tests.antt =====
-- Keywords, at an input.
use fastgozero.Prelude.{◌≡◌, ◌↔◌, true, some}
use fastgozero.Prelude.Texts.{codes}
use fastgozero.Api.Token.{goto_keyword, type_string, is_keyword, lookup_keyword}
use fastgozero.Api.Token.Keywords.{token_of, lookup_keyword_lem}

lookup_keyword_lem_example :
    (lookup_keyword (codes "goto") ≡ some goto_keyword)
    ↔ ((type_string goto_keyword ≡ codes "goto") × (is_keyword (token_of goto_keyword) ≡ true))
lookup_keyword_lem_example = lookup_keyword_lem (codes "goto") goto_keyword
