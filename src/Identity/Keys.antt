-- ===== src/Identity/Keys.antt =====
-- What a file's keys tell of it.
use trawlarr.Prelude.{ℕ, ◌≡◌, ap, Option, none, some, Str}
use trawlarr.Identity.{
  IdentityKind, inode, content, PartialHashParts, IdentityLookup, build_identity_candidate,
  found_by_inode, found_by_content, match_identity,
}

found_by_inode_kept :
    (by_inode by_content by_content' : Option Str) {file : Str}
    → found_by_inode by_inode (found_by_content by_content) ≡ some (file, inode)
    → found_by_inode by_inode (found_by_content by_content') ≡ some (file, inode)
found_by_inode_kept (some f) by_content by_content' h = h
found_by_inode_kept none none by_content' h = cc
found_by_inode_kept none (some g) by_content' {file} h =
    let kind_of : Option (Str × IdentityKind) → IdentityKind = elim [
      | some p ↦ p.1
      | none ↦ content
    ] in
    let same : content ≡ inode = ap kind_of h in cc

-- A file that is found by its inode is found as the same file whatever its content has become.
pub match_identity_content :
    (sha256_hex : Str → Str) (device number : Option ℕ) (hash hash' : PartialHashParts)
    (lookup : IdentityLookup) (file : Str)
    → match_identity (build_identity_candidate sha256_hex device number hash) lookup
      ≡ some (file, inode)
    → match_identity (build_identity_candidate sha256_hex device number hash') lookup
      ≡ some (file, inode)
unfolding match_identity build_identity_candidate
match_identity_content sha256_hex device number hash hash' lookup file h =
    found_by_inode_kept _ _ _ h
