-- ===== src/Cli/Dispatch/Hashes.antt =====
-- The targets of `runGet`, cmd/p2pget/main.go, that are info-hashes.
use p2pget.Prelude.{
  ℕ, ◌-◌, [], ◌∷◌, false, ◌==◌, ◌≡◌, refl, arith, Text, codes, length, drop, byte_len, Bool-cases,
  inl, inr, zero, suc,
}
use p2pget.Strings.{has_prefix}
use p2pget.Indexers.Links.{is_hex}
use p2pget.Indexers.Links.Digits.{AllHex}
use p2pget.Cli.Dispatch.{has_suffix, target_of, info_hash}

-- No prefix of digits begins with a character that is none.
not_prefix :
    (s : Text) (c : ℕ) (p : Text) → AllHex s → is_hex c ≡ false → has_prefix s (c ∷ p) ≡ false
unfolding has_prefix
not_prefix [] c p h e = refl
not_prefix (d ∷ s) c p (hd, h) e = elim (Bool-cases (d == c)) [
  | inl same ↦ absurd (grind arith)
  | inr other ↦ rw other refl
]

drop-AllHex : (n : ℕ) (s : Text) → AllHex s → AllHex (drop n s)
drop-AllHex zero s h = h
drop-AllHex (suc n) [] h = tt
drop-AllHex (suc n) (c ∷ s) (hc, h) = drop-AllHex n s h

-- Forty bytes that are all hexadecimal digits are taken for an info-hash.
pub target_of-hash : (s : Text) → AllHex s → byte_len s ≡ 40 → target_of s ≡ info_hash
unfolding target_of is_hex has_suffix
target_of-hash s h e =
    rw (not_prefix s b'm' (codes "agnet:") h refl) rw (not_prefix s b'h' (codes "ttp://") h refl) rw
      (not_prefix s b'h' (codes "ttps://") h refl) rw
      (not_prefix (drop (length s - 8) s) b'.' (codes "torrent") (drop-AllHex (length s - 8) s h)
        refl)
      ground arith
