-- ===== src/Room/Client.antt =====
-- crates/pahoa-room/src/conn.rs: what the room keeps of a connection.
use pahoa.Prelude.{
  ℕ, Bool, true, false, ◌&&◌, ◌||◌, Option, none, some, List, [], ◌∷◌, String, if◌then◌else◌,
}
use pahoa.Prelude.Equality.{◌==◌, string_eq, contains}
use pahoa.Multidata.Types.{Version, version_ltb}
use pahoa.Proto.Packets.Flags.{ItemsHandling}
use pahoa.Room.Effects.{ConnId}

abbrev pub non_game_tags : List String
non_game_tags = "HintGame" ∷ "Tracker" ∷ "TextOnly" ∷ []

unfoldable pub first_verb : List String → List (String × String) → Option String
unfolding contains
first_verb tags [] = none
first_verb tags ((tag, verb) ∷ rest) = if contains tags tag then some verb else first_verb tags rest

unfoldable pub non_game_verb : List String → Option String
unfolding first_verb
non_game_verb tags =
    first_verb tags
      (("HintGame", "hinting") ∷ ("Tracker", "tracking") ∷ ("TextOnly", "viewing") ∷ [])

pub data FeedPolicy : Type 0 where
  full scoped_feed : FeedPolicy

pub record Client : Type 0 where
  pub id : ConnId
  pub auth : Bool
  pub team : ℕ
  pub slot : ℕ
  pub version : Version
  pub tags : List String
  pub items_handling : ItemsHandling
  pub send_index : ℕ
  pub no_locations : Bool
  pub no_text : Bool
  pub feed : FeedPolicy

unfoldable pub with_feed : ConnId → FeedPolicy → Client
with_feed id feed = record {
  id = id;
  auth = false;
  team = 0;
  slot = 0;
  version = record { major = 0; minor = 0; build = 0 };
  tags = [];
  items_handling = record { bits = 0 };
  send_index = 0;
  no_locations = false;
  no_text = false;
  feed = feed;
}

abbrev is_scoped : FeedPolicy → Bool
is_scoped full = false
is_scoped scoped_feed = true

unfoldable pub scoped : Client → Bool
scoped c = is_scoped c.feed

-- `tags.iter().any(|t| NON_GAME_TAGS.contains(t))`
unfoldable pub any_non_game : List String → Bool
unfolding contains
any_non_game [] = false
any_non_game (t ∷ ts) = contains non_game_tags t || any_non_game ts

unfoldable pub apply_tags : Client → List String → Client
unfolding any_non_game contains
apply_tags c tags = record c {
  no_locations = any_non_game tags;
  no_text =
      contains tags "NoText"
      || contains tags "PopTracker"
        && version_ltb c.version (record { major = 0; minor = 5; build = 1 });
  tags = tags;
}

abbrev no_game : Option String → Bool
no_game none = true
no_game (some game) = game == ""

unfoldable pub ignores_game : Option String → List String → Bool
unfolding any_non_game
ignores_game game tags = no_game game && any_non_game tags
