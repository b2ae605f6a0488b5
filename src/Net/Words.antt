-- ===== src/Net/Words.antt =====
-- Words in memory, on hosts of either byte order. `little` says that the lowest byte comes first.
use uv_mbt.Base.{
  ℕ, ◌+◌, ◌*◌, ◌/◌, ◌%◌, ◌<◌, ◌≡◌, Bool, true, false, List, [], ◌∷◌, if◌then◌else◌, arith,
}

abbrev pub hi : ℕ → ℕ
hi w = w / 256 % 256

abbrev pub lo : ℕ → ℕ
lo w = w % 256

-- the bytes of a `uint16_t`
unfoldable pub store16 : (little : Bool) → ℕ → List ℕ
store16 little w = if little then lo w ∷ hi w ∷ [] else hi w ∷ lo w ∷ []

-- `htons` and `ntohs`: a word whose bytes stand with the highest first
unfoldable pub htons : (little : Bool) → ℕ → ℕ
htons little w = if little then lo w * 256 + hi w else w % 65536

unfoldable pub ntohs : (little : Bool) → ℕ → ℕ
unfolding htons
ntohs little w = htons little w

-- the bytes of a `uint32_t`
unfoldable pub store32 : (little : Bool) → ℕ → List ℕ
store32 little w =
    if little
    then w % 256 ∷ w / 256 % 256 ∷ w / 65536 % 256 ∷ w / 16777216 % 256 ∷ []
    else w / 16777216 % 256 ∷ w / 65536 % 256 ∷ w / 256 % 256 ∷ w % 256 ∷ []

-- four bytes read as a `uint32_t`
unfoldable pub load32 : (little : Bool) → ℕ → ℕ → ℕ → ℕ → ℕ
load32 little a b c d =
    if little
    then a + b * 256 + c * 65536 + d * 16777216
    else d + c * 256 + b * 65536 + a * 16777216

-- in network order whatever the host is
pub store16-htons : (little : Bool) (w : ℕ) → store16 little (htons little w) ≡ hi w ∷ lo w ∷ []
unfolding store16 htons
store16-htons true w = ground arith
store16-htons false w = ground arith

pub ntohs-htons : (little : Bool) (w : ℕ) → ntohs little (htons little w) ≡ w % 65536
unfolding ntohs htons
ntohs-htons true w = ground arith
ntohs-htons false w = ground arith

pub store32-load32 :
    (little : Bool) (a b c d : ℕ)
    → a < 256
    → b < 256
    → c < 256
    → d < 256
    → store32 little (load32 little a b c d) ≡ a ∷ b ∷ c ∷ d ∷ []
unfolding store32 load32
store32-load32 true a b c d ha hb hc hd = ground arith
store32-load32 false a b c d ha hb hc hd = ground arith
