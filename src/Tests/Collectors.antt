-- ===== src/Tests/Collectors.antt =====
-- Concrete texts that are clipped.
use sentinel_linux.Prelude.{◌≡◌, refl}
use sentinel_linux.Prelude.Text.{text_length}
use sentinel_linux.Collectors.Clip.{clip}

cut_in_the_middle : clip "abcdefghijklmnop" 9 ≡ "ab ... op"
unfolding clip
cut_in_the_middle = refl

-- Under a limit of less than five characters the marker alone is longer than the limit.
longer_than_limit : text_length (clip "abcdefgh" 3) ≡ 5
unfolding clip
longer_than_limit = refl
