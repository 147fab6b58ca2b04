-- ===== src/Redis/Resp/Utf8.antt =====
-- `str::from_utf8`, as crates/hashring-redis/src/resp.rs uses it: whether bytes are UTF-8.
use hashring_rs.Prelude.{ℕ, Bytes, [], ◌∷◌, Bool, true, ◌&&◌, ltb, leb, if◌then◌else◌}

abbrev within : ℕ → ℕ → ℕ → Bool
within low high c = leb low c && leb c high

-- The range of the byte after a first one of three or of four.
abbrev second_of_three : ℕ → ℕ → Bool
second_of_three a b =
    within (if leb a 224 then 160 else 128) (if within 237 237 a then 159 else 191) b

abbrev second_of_four : ℕ → ℕ → Bool
second_of_four a b = within (if leb a 240 then 144 else 128) (if leb 244 a then 143 else 191) b

unfoldable pub is_utf8 : Bytes → Bool
is_utf8 [] = true
is_utf8 (a ∷ []) = ltb a 128
is_utf8 (a ∷ b ∷ []) =
    let rest = is_utf8 (b ∷ []) in if ltb a 128 then rest else within 194 223 a && within 128 191 b
is_utf8 (a ∷ b ∷ c ∷ []) =
    let one = is_utf8 (b ∷ c ∷ []) in
    let two = is_utf8 (c ∷ []) in
    if ltb a 128
    then one
    else if leb a 223
    then within 194 223 a && within 128 191 b && two
    else within 224 239 a && second_of_three a b && within 128 191 c
is_utf8 (a ∷ b ∷ c ∷ d ∷ text) =
    let one = is_utf8 (b ∷ c ∷ d ∷ text) in
    let two = is_utf8 (c ∷ d ∷ text) in
    let three = is_utf8 (d ∷ text) in
    let four = is_utf8 text in
    if ltb a 128
    then one
    else if leb a 223
    then within 194 223 a && within 128 191 b && two
    else if leb a 239
    then within 224 239 a && second_of_three a b && within 128 191 c && three
    else within 240 244 a && second_of_four a b && within 128 191 c && within 128 191 d && four
