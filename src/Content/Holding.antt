-- ===== src/Content/Holding.antt =====
-- A file while it is written.
use mathlib.Core.Path.{subst}
use operating_systems_ass.Base.{ℕ, ◌/◌, ◌<◌, ◌≤◌, ◌≡◌, ◌≢◌, ◌∙◌, sym, max}
use operating_systems_ass.Blocks.{bsize, Superblock, Store}
use operating_systems_ass.Dinode.{Dinode}
use operating_systems_ass.FileMap.{maxfile}
use operating_systems_ass.Blocks.{bblock}
use operating_systems_ass.Blocks.Bitmap.{IsBytes}
use operating_systems_ass.Blocks.Alloc.{used}
use operating_systems_ass.FileMap.Slots.{slot, IsMapped}
use operating_systems_ass.Content.{Bytes}
use operating_systems_ass.Content.Reading.{content}

-- A file whose blocks keep their numbers and their bits
pub same-IsMapped :
    (sb : Superblock) (d d' : Dinode) (st st' : Store)
    → IsMapped sb d st
    → 0 < sb.size
    → ((k : ℕ) → k ≤ maxfile → slot d' st' k ≡ slot d st k)
    → ((y : ℕ) → y < sb.size → used sb st' y ≡ used sb st y)
    → ((c : ℕ) → IsBytes (st' c))
    → IsMapped sb d' st'
same-IsMapped sb d d' st st' v pos slots marks bytes = record {
  bytes = bytes;
  map_within = v.map_within;
  map_used =
      λ y h. subst (λ u. u ≢ 0) (sym (marks (bblock y sb) (v.map_within y h))) (v.map_used y h);
  boot_used = subst (λ u. u ≢ 0) (sym (marks 0 pos)) v.boot_used;
  in_use = λ k h.
      subst (λ q. q ≢ 0 → used sb st' q ≢ 0) (sym (slots k h))
        (λ n. subst (λ u. u ≢ 0) (sym (marks (slot d st k) (v.in_size k h n))) (v.in_use k h n));
  in_size = λ k h. subst (λ q. q ≢ 0 → q < sb.size) (sym (slots k h)) (v.in_size k h);
  not_map = λ k y h l. subst (λ q. q ≢ 0 → q ≢ bblock y sb) (sym (slots k h)) (v.not_map k y h l);
  apart = λ k l hk hl n e.
      v.apart k l hk hl (λ z. n (slots k hk ∙ z)) (sym (slots k hk) ∙ (e ∙ slots l hl));
}

-- A file while it is written: its blocks reach to its size and to `off`, its bytes so far are those of
-- `bytes`, and none of its blocks is the block `own` of its inode.
pub record Holds (sb : Superblock) (own size : ℕ) (d : Dinode) (st : Store) (off : ℕ)
    (bytes : Bytes) : Type 0 where
  pub mapped : IsMapped sb d st
  pub old_size : d.size ≡ size
  pub has_blocks : (i : ℕ) → i < max size off → slot d st (i / bsize) ≢ 0
  pub has_bytes : (i : ℕ) → i < max size off → content d st i ≡ bytes i
  pub own_within : own < sb.size
  pub own_used : used sb st own ≢ 0
  pub own_apart : (k : ℕ) → k ≤ maxfile → slot d st k ≢ 0 → slot d st k ≢ own
