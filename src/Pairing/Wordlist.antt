-- ===== src/Pairing/Wordlist.antt =====
-- src/sync/wordlist.ts: the words of the safety code, one for each byte.
use abracadabra.Common.{
  ℕ, zero, suc, ◌<◌, ◌≡◌, refl, String, str_eq, Bool, true, ◌&&◌, ◌==◌, ==_iff, if◌then◌else◌, List,
  [], ◌∷◌, arith,
}

abbrev pub sas_words : List String
sas_words =
    "acid" ∷ "acorn" ∷ "actor" ∷ "adobe" ∷ "agent" ∷ "alarm" ∷ "album" ∷ "alley" ∷ "amber"
    ∷ "anchor" ∷ "angle" ∷ "ankle" ∷ "apple" ∷ "apron" ∷ "arena" ∷ "arrow" ∷ "aspen" ∷ "atlas"
    ∷ "attic" ∷ "audio" ∷ "badge" ∷ "bagel" ∷ "baker" ∷ "bamboo" ∷ "banjo" ∷ "barn" ∷ "basil"
    ∷ "beach" ∷ "beacon" ∷ "beard" ∷ "bench" ∷ "berry" ∷ "bison" ∷ "blade" ∷ "blimp" ∷ "bloom"
    ∷ "board" ∷ "bonus" ∷ "boots" ∷ "brain" ∷ "brass" ∷ "bread" ∷ "brick" ∷ "bridge" ∷ "brook"
    ∷ "brush" ∷ "bucket" ∷ "buffalo" ∷ "bugle" ∷ "cabin" ∷ "cable" ∷ "cactus" ∷ "camel" ∷ "canal"
    ∷ "candle" ∷ "canoe" ∷ "canyon" ∷ "carbon" ∷ "cargo" ∷ "carpet" ∷ "castle" ∷ "cedar" ∷ "cello"
    ∷ "chalk" ∷ "cherry" ∷ "chess" ∷ "chief" ∷ "chimney" ∷ "cider" ∷ "cinema" ∷ "circus" ∷ "citrus"
    ∷ "clock" ∷ "cloud" ∷ "clover" ∷ "cobalt" ∷ "cocoa" ∷ "comet" ∷ "copper" ∷ "coral" ∷ "cotton"
    ∷ "cougar" ∷ "crane" ∷ "crater" ∷ "crayon" ∷ "cricket" ∷ "crown" ∷ "cube" ∷ "dahlia" ∷ "daisy"
    ∷ "delta" ∷ "denim" ∷ "desert" ∷ "diamond" ∷ "dingo" ∷ "dolphin" ∷ "domino" ∷ "donkey"
    ∷ "dragon" ∷ "drum" ∷ "eagle" ∷ "easel" ∷ "echo" ∷ "eclipse" ∷ "elbow" ∷ "elder" ∷ "ember"
    ∷ "engine" ∷ "falcon" ∷ "fable" ∷ "feather" ∷ "fence" ∷ "fern" ∷ "ferry" ∷ "fiddle" ∷ "fig"
    ∷ "flame" ∷ "flask" ∷ "flute" ∷ "forest" ∷ "fossil" ∷ "fox" ∷ "frost" ∷ "galaxy" ∷ "garden"
    ∷ "garlic" ∷ "gazelle" ∷ "geyser" ∷ "ginger" ∷ "glacier" ∷ "globe" ∷ "goat" ∷ "gopher"
    ∷ "granite" ∷ "grape" ∷ "gravel" ∷ "guitar" ∷ "hammer" ∷ "harbor" ∷ "harp" ∷ "hazel" ∷ "helmet"
    ∷ "heron" ∷ "hippo" ∷ "honey" ∷ "hornet" ∷ "husky" ∷ "igloo" ∷ "indigo" ∷ "iris" ∷ "island"
    ∷ "ivory" ∷ "jacket" ∷ "jaguar" ∷ "jasmine" ∷ "jelly" ∷ "jigsaw" ∷ "jungle" ∷ "kayak" ∷ "kettle"
    ∷ "kiwi" ∷ "koala" ∷ "ladder" ∷ "lagoon" ∷ "lantern" ∷ "lemon" ∷ "lentil" ∷ "lily" ∷ "lizard"
    ∷ "llama" ∷ "lobster" ∷ "locket" ∷ "lotus" ∷ "magnet" ∷ "mango" ∷ "maple" ∷ "marble" ∷ "meadow"
    ∷ "melon" ∷ "meteor" ∷ "mint" ∷ "mirror" ∷ "mitten" ∷ "monsoon" ∷ "moose" ∷ "mosaic" ∷ "muffin"
    ∷ "nectar" ∷ "needle" ∷ "nickel" ∷ "nutmeg" ∷ "oasis" ∷ "ocean" ∷ "olive" ∷ "onion" ∷ "orbit"
    ∷ "orchid" ∷ "otter" ∷ "oyster" ∷ "paddle" ∷ "panda" ∷ "papaya" ∷ "parrot" ∷ "peanut" ∷ "pebble"
    ∷ "pelican" ∷ "pepper" ∷ "piano" ∷ "pickle" ∷ "pigeon" ∷ "pillow" ∷ "pine" ∷ "planet" ∷ "plum"
    ∷ "pony" ∷ "poppy" ∷ "prism" ∷ "pumpkin" ∷ "puzzle" ∷ "quartz" ∷ "quill" ∷ "rabbit" ∷ "radar"
    ∷ "radish" ∷ "raven" ∷ "reef" ∷ "ribbon" ∷ "river" ∷ "robin" ∷ "rocket" ∷ "saddle" ∷ "salmon"
    ∷ "sandal" ∷ "saturn" ∷ "scarf" ∷ "shovel" ∷ "sierra" ∷ "silver" ∷ "sketch" ∷ "sloth" ∷ "socket"
    ∷ "spider" ∷ "sponge" ∷ "spruce" ∷ "squid" ∷ "statue" ∷ "summit" ∷ "sunset" ∷ "tablet" ∷ "tango"
    ∷ "tiger" ∷ "tomato" ∷ "topaz" ∷ "tulip" ∷ "tundra" ∷ "turtle" ∷ []

-- `SAS_WORDS[b]`; a byte is below the length of the list.
abbrev nth : List String → ℕ → String
nth [] i = ""
nth (w ∷ ws) zero = w
nth (w ∷ ws) (suc i) = nth ws i

unfoldable pub word : ℕ → String
word b = nth sas_words b

-- The first place of a word.
place : List String → String → ℕ
place [] w = 0
place (v ∷ ws) w = let rest = suc (place ws w) in if str_eq v w then 0 else rest

all_below : ℕ → (ℕ → Bool) → Bool
all_below zero p = true
all_below (suc n) p = p n && all_below n p

all_below_lem : (n : ℕ) (p : ℕ → Bool) (x : ℕ) → all_below n p ≡ true → x < n → p x ≡ true
unfolding all_below
all_below_lem zero p x h l = absurd (omega arith)
all_below_lem (suc n) p x h l = ground (arith, all_below_lem n p x)

places : all_below 256 (λ b. place sas_words (word b) == b) ≡ true
unfolding all_below place word
places = refl

-- Each byte has a word of its own.
pub word_inj : (a b : ℕ) → a < 256 → b < 256 → word a ≡ word b → a ≡ b
word_inj a b ha hb h =
    let pa = (==_iff _ a).0 (all_below_lem 256 (λ c. place sas_words (word c) == c) a places ha) in
    let pb = (==_iff _ b).0 (all_below_lem 256 (λ c. place sas_words (word c) == c) b places hb) in
    cc (pa, pb, h)
