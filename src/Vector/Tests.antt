-- ===== src/Vector/Tests.antt =====
-- Runs of the fusion on two short lists.
use equill.Base.{
  ℕ, ◌≤◌, ◌≡◌, refl, ◌↔◌, true, none, List, [], ◌∷◌, length, Unique, nat_eq, contains, lookup,
  insert,
}
use equill.Vector.Fusion.{
  Source, vector_half, text_half, Policy, Hit, ordered, merge_source, add_hits, add_hit, fuse,
  stand, sort_ranked,
}
use equill.Vector.Order.{hit_ids, ordered-length, ordered-Unique, ordered-answered}

abbrev hit : ℕ → Hit ℕ
hit id = record {
  id = id;
  namespace = "agent.memory";
  type_name = "note";
  actor = "owner";
  recorded_at = "2026-01-02T00:00:00Z";
  observed_at = "2026-01-02T00:00:00Z";
  valid_at = "2026-01-02T00:00:00Z";
  payload = id;
  evidence = [];
  tags = [];
  supersedes = none;
}

abbrev policy : Policy
policy = record {
  hybrid_order = (vector_half, text_half);
  hybrid_fill_remaining = true;
  hybrid_deduplicate = true;
}

abbrev meanings : List (Hit ℕ)
meanings = hit 1 ∷ hit 2 ∷ []

abbrev words : List (Hit ℕ)
words = hit 3 ∷ hit 2 ∷ hit 4 ∷ []

ordered_run : hit_ids (ordered ℕ meanings words policy 3).0 ≡ 1 ∷ 2 ∷ 3 ∷ []
unfolding ordered contains
ordered_run = refl

-- The record that both searches found comes first.
fuse_run : hit_ids (fuse ℕ meanings words) ≡ 2 ∷ 1 ∷ 3 ∷ 4 ∷ []
unfolding fuse insert equill.Vector.Fusion.insert_ranked lookup
fuse_run = refl

ordered-length_example : length (ordered ℕ meanings words policy 3).0 ≤ 3
ordered-length_example = ordered-length meanings words policy 3

ordered-Unique_example : Unique (hit_ids (ordered ℕ meanings words policy 3).0)
ordered-Unique_example = ordered-Unique meanings words policy 3 refl

ordered-answered_example :
    ((ordered ℕ meanings words policy 3).1 ≡ none) ↔ ((ordered ℕ meanings words policy 3).0 ≡ [])
ordered-answered_example = ordered-answered meanings words policy 3
