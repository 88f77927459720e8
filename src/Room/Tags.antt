-- ===== src/Room/Tags.antt =====
-- crates/pahoa-room/src/conn.rs: tags as Python writes a list of texts, and as a set.
use pahoa.Prelude.{Bool, true, ◌&&◌, List, [], ◌∷◌, String}
use pahoa.Prelude.Equality.{string_eq, contains}
use pahoa.Prelude.Text.{format}
use pahoa.Prelude.Python.{python_str_repr}

unfoldable pub all_in_tags : List String → List String → Bool
unfolding contains
all_in_tags [] tags = true
all_in_tags (t ∷ ts) tags = contains tags t && all_in_tags ts tags

-- Whether two lists have the same `tag_set`.
unfoldable pub same_tag_set : List String → List String → Bool
unfolding all_in_tags
same_tag_set from to = all_in_tags from to && all_in_tags to from

abbrev pub each_repr : List String → List String
each_repr [] = []
each_repr (t ∷ []) = python_str_repr t ∷ []
each_repr (t ∷ u ∷ ts) = python_str_repr t ∷ ", " ∷ each_repr (u ∷ ts)

unfoldable pub python_list_repr : List String → String
unfolding python_str_repr
python_list_repr items = format ("[" ∷ format (each_repr items) ∷ "]" ∷ [])
