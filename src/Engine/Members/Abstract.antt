-- ===== src/Engine/Members/Abstract.antt =====
-- What the calls of internal/engine/engine.go mean for the set of hashes that the user sees.
use p2pget.Prelude.{
  List, [], ◌∷◌, Bool, true, false, ◌==◌, if◌then◌else◌, Option, some, none, ◌≡◌, text_discrete,
  Text, ite, byte_len, is_empty,
}
use p2pget.Strings.{Unicode, to_lower, trim_space}
use p2pget.Download.{Torrent}
use p2pget.Engine.{Client}
use p2pget.Engine.Steps.{
  Call, adds_magnet, adds_torrent, adds_info_hash, removes, restarts, arrives, pauses, wants_all,
  wants, samples, closes,
}

-- A set of hashes.
abbrev pub Hashes : Type 0
Hashes = Text → Bool

abbrev pub with_hash : Text → Hashes → Hashes
with_hash h s j = ite (text_discrete h j) true (s j)

abbrev pub without_hash : Text → Hashes → Hashes
without_hash h s j = ite (text_discrete h j) false (s j)

-- The hash of a torrent that the client gave.
abbrev pub with_given : Option Torrent → Hashes → Hashes
with_given none s = s
with_given (some t) s = with_hash t.info_hash s

abbrev pub with_named : (Text → Torrent) → Option Text → Hashes → Hashes
with_named f none s = s
with_named f (some h) s = with_hash (f h).info_hash s

abbrev pub without_named : Option Text → Hashes → Hashes
without_named none s = s
without_named (some h) s = without_hash h s

module _ ⦃u : Unicode⦄ where
  -- What a call does to the set of hashes: additions add the hash of the torrent, a removal takes it
  -- away, and all other calls leave the set alone.
  unfoldable pub abstract_step : Hashes → Call → Hashes
  abstract_step s (adds_magnet c now written uri) = with_given (c.add_magnet uri) s
  abstract_step s (adds_torrent c now written hash) = with_given (c.add_torrent hash) s
  abstract_step s (adds_info_hash c now written text) =
      let hex = to_lower (trim_space text) in
      if byte_len hex == 40 then with_named c.add_info_hash (c.from_hex hex) s else s
  abstract_step s (removes c written hash) = without_named (c.from_hex hash) s
  abstract_step s (restarts c now written hash) = s
  abstract_step s (arrives timeout id a) = s
  abstract_step s (pauses id p) = s
  abstract_step s (wants_all id w) = s
  abstract_step s (wants id index w) = s
  abstract_step s (samples id now st) = s
  abstract_step s (closes written) = s

  unfoldable pub abstract_run : Hashes → List Call → Hashes
  abstract_run s [] = s
  abstract_run s (k ∷ ks) = abstract_run (abstract_step s k) ks

module _ (magnet_hash : Text → Text) where
  -- A client that takes back the torrents that it had, under their hashes.
  pub record TakesBack (c : Client) : Type 0 where
    pub metainfo : (h : Text) → (t : Torrent) × (c.add_torrent h ≡ some t) × (t.info_hash ≡ h)
    pub hash : (h : Text) → (c.add_info_hash h).info_hash ≡ h
    pub magnet :
        (m : Text)
        → is_empty m ≡ false
        → (t : Torrent) × (c.add_magnet m ≡ some t) × (t.info_hash ≡ magnet_hash m)

  -- What the client does at a call: the torrent of a magnet has the hash that the magnet names, and a
  -- restart finds the client willing.
  abbrev pub IsFair : Call → Type 0
  IsFair (adds_magnet c now written uri) =
      (t : Torrent) → c.add_magnet uri ≡ some t → magnet_hash uri ≡ t.info_hash
  IsFair (restarts c now written hash) = TakesBack c
  IsFair _ = Unit

  abbrev pub AllFair : List Call → Type 0
  AllFair [] = Unit
  AllFair (k ∷ ks) = IsFair k × AllFair ks
