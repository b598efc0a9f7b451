-- ===== src/Context/Json/Laws.antt =====
-- Cloning a value that is JSON already.
use open_dynamic_workflow.Base.{◌≡◌, refl, some}
use open_dynamic_workflow.Context.Json.{
  Json, Items, Fields, check_and_clone, clone_items, clone_fields, embed, embed_items, embed_fields,
}

mutual
  unfolding check_and_clone embed

  check_and_clone-embed_lem : (j : Json) → check_and_clone (embed j) ≡ some j
  check_and_clone-embed_lem Json.null = refl
  check_and_clone-embed_lem (Json.boolean b) = refl
  check_and_clone-embed_lem (Json.number n) = refl
  check_and_clone-embed_lem (Json.text t) = refl
  check_and_clone-embed_lem (Json.array xs) = rw (clone_items-embed_items xs)
  check_and_clone-embed_lem (Json.object fs) = rw (clone_fields-embed_fields fs)

  clone_items-embed_items : (xs : Items) → clone_items (embed_items xs) ≡ some xs
  clone_items-embed_items Items.nil = refl
  clone_items-embed_items (Items.item x xs) =
      rw (check_and_clone-embed_lem x, clone_items-embed_items xs)

  clone_fields-embed_fields : (fs : Fields) → clone_fields (embed_fields fs) ≡ some fs
  clone_fields-embed_fields Fields.end = refl
  clone_fields-embed_fields (Fields.field key x fs) =
      rw (check_and_clone-embed_lem x, clone_fields-embed_fields fs)

pub check_and_clone-embed : (j : Json) → check_and_clone (embed j) ≡ some j
check_and_clone-embed j = check_and_clone-embed_lem j
