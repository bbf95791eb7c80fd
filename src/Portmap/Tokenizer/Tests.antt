-- ===== src/Portmap/Tokenizer/Tests.antt =====
-- Texts that the tokenizer reads.
use avr_ha_lib.Prelude.{if◌then◌else◌, ◌+◌, ◌≡◌, refl, true, false, [], ◌++◌}
use avr_ha_lib.Prelude.Int.{pos}
use avr_ha_lib.Portmap.Text.{Text, codes}
use avr_ha_lib.Portmap.Tokenizer.{
  new_tokenizer, identifier, blanks, skip, main, outside, outside_step, get_token,
}
use avr_ha_lib.Portmap.Tokenizer.Copying.{newlines, get_token-copies}
use avr_ha_lib.Portmap.Tokenizer.Words.{in_block, get_token-word}

abbrev file : Text
file = codes "// a portmap\n#include <x>\nportmap P {"

get_token-copies_example :
    let (good, token, t', rest) = get_token new_tokenizer file in
    (token.content ++ rest ≡ file)
    × (t'.current_line_number ≡ 1 + newlines token.content)
    × ((after : Text) × (rest ≡ (if t'.inside_portmap_block then codes "portmap" ++ after else [])))
get_token-copies_example = get_token-copies new_tokenizer file refl refl

get_token-word_example : get_token (in_block 3 (pos 1) 0) (codes "led7: a 3;") ≡ (
  true,
  record { type = identifier; content = codes "led7" },
  in_block 3 (pos 1) 0,
  codes ": a 3;",
)
get_token-word_example =
    get_token-word 3 (pos 1) 0 b'l' (codes "ed7") (codes ": a 3;") refl (refl, (refl, (refl, tt)))
      refl

-- The static `lastChar` is still the star of the comment before: the comment `/*/ x */` ends at once.
comment_left : skip (blanks false) 1 0 (codes "/* a */ /*/ x */ y") ≡ (1, b'*', codes "x */ y")
unfolding skip
comment_left = refl

-- Outside of blocks, a division and a product are a comment: the keyword behind them is not found.
keyword_missed : (outside main false 1 [] (codes "#define A b / c * d\nportmap ")).0 ≡ false
unfolding outside outside_step
keyword_missed = refl
