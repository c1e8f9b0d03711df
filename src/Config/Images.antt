-- ===== src/Config/Images.antt =====
-- internal/config/config.go: the image of a pool, and which image tiers are accepted.
use multirunner.Common.{
  ℕ, Bool, true, false, not, ◌&&◌, ◌||◌, Option, none, some, List, [], ◌∷◌, ◌++◌, ◌==◌, leb,
  if◌then◌else◌, length, any, Text, codes, text_eq, starts_with, is_some,
}
use multirunner.Config.Strings.{drop}
use multirunner.Config.Types.{Os, linux, windows, other_os, Pool}
use multirunner.Config.Checks.{Error, invalid_image_tier}
use multirunner.Config.Pools.{Outside, is_qemu}
use multirunner.Pool.Access.{is_empty}

-- The flavors that are named like their tags.
abbrev pub plain_flavors : Os → List Text
plain_flavors linux =
    codes "native-build" ∷ codes "node" ∷ codes "dotnet" ∷ codes "rust" ∷ codes "go" ∷ []
plain_flavors windows = codes "node" ∷ codes "dotnet" ∷ codes "buildtools" ∷ []
plain_flavors other_os = []

abbrev pub build_tools_prefix : Text
build_tools_prefix = codes "buildtools:"

unfoldable pub build_tools_tag : List Text → Os → Text → Option Text
build_tools_tag lines windows tier =
    let line = drop (length build_tools_prefix) tier in
    if starts_with tier build_tools_prefix && any (text_eq line) lines
    then some (codes "buildtools-" ++ line)
    else none
build_tools_tag lines _ tier = none

-- publishedFlavors[os][tier]
unfoldable pub published_flavor : List Text → Os → Text → Option Text
unfolding build_tools_tag
published_flavor lines os tier =
    if any (text_eq tier) (plain_flavors os) then some tier else build_tools_tag lines os tier

-- The state of localImageTierPattern: where a component starts, inside one, and behind a separator.
pub data TierState : Type 0 where
  at_start in_word behind_one behind_underscore behind_dashes : TierState

abbrev pub is_lower_or_digit : ℕ → Bool
is_lower_or_digit c = (leb 97 c && leb c 122) || (leb 48 c && leb c 57)

-- One byte, of which it is known that it is no letter or digit.
unfoldable pub separator_step : TierState → ℕ → Option TierState
separator_step at_start c = none
separator_step in_word c =
    if c == 46
    then some behind_one
    else if c == 95
    then some behind_underscore
    else if c == 45
    then some behind_dashes
    else none
separator_step behind_one c = none
separator_step behind_underscore c = if c == 95 then some behind_one else none
separator_step behind_dashes c = if c == 45 then some behind_dashes else none

unfoldable pub tier_step : TierState → ℕ → Option TierState
unfolding separator_step
tier_step state c = if is_lower_or_digit c then some in_word else separator_step state c

unfoldable pub matches_from : Option TierState → Text → Bool
unfolding tier_step
matches_from none s = false
matches_from (some in_word) [] = true
matches_from (some at_start) [] = false
matches_from (some behind_one) [] = false
matches_from (some behind_underscore) [] = false
matches_from (some behind_dashes) [] = false
matches_from (some state) (c ∷ s) = matches_from (tier_step state c) s

-- localImageTierPattern.MatchString
unfoldable pub is_local_tier : Text → Bool
unfolding matches_from
is_local_tier tier = matches_from (some at_start) tier

abbrev pub max_local_image_tier_length : ℕ
max_local_image_tier_length = 64

abbrev pub minimal : Text
minimal = codes "minimal"

-- validateImageTier
unfoldable pub validate_image_tier : Outside → Pool → Option Error
unfolding published_flavor is_local_tier
validate_image_tier env p =
    if not (is_empty p.image) || is_qemu p.backend
    then none
    else if is_empty p.image_tier
        || text_eq p.image_tier minimal
        || is_some (published_flavor env.release_lines p.os p.image_tier)
    then none
    else if leb (length p.image_tier) max_local_image_tier_length && is_local_tier p.image_tier
    then none
    else some invalid_image_tier

abbrev pub os_text : Os → Text
os_text linux = codes "linux"
os_text windows = codes "windows"
os_text other_os = []

-- The last two returns of ImageRef.
unfoldable pub flavored_image : Os → Text → Option Text → Text
flavored_image os tier (some tag) =
    codes "gerardsmit/multirunner-runner-" ++ (os_text os ++ (codes ":" ++ tag))
flavored_image os tier none =
    codes "multirunner/runner-" ++ (os_text os ++ (codes "-" ++ (tier ++ codes ":dev")))

-- ImageRef
unfoldable pub image_ref : List Text → Pool → Text
unfolding flavored_image published_flavor
image_ref lines p =
    if not (is_empty p.image)
    then p.image
    else if is_empty p.image_tier || text_eq p.image_tier minimal
    then codes "gerardsmit/multirunner-runner-" ++ (os_text p.os ++ codes ":latest")
    else flavored_image p.os p.image_tier (published_flavor lines p.os p.image_tier)
