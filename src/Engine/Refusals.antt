-- ===== src/Engine/Refusals.antt =====
-- The errors of internal/engine/engine.go, and what is left behind one.
use p2pget.Prelude.{
  ℕ, Bool, ◌==◌, ◌≡◌, ◌⊎◌, inl, inr, refl, none, some, Text, byte_len, Bool-cases, Option-cases,
  lookup, text_discrete, lookup-delete_self,
}
use p2pget.Strings.{Unicode, to_lower, trim_space}
use p2pget.Engine.{
  Engine, Client, Outcome, ok, failed, Failure, bad_length, bad_hex, no_such_download,
  client_refused, add_magnet, add_info_hash, remove, restart, find, forget, re_add,
}

module _ {R A : Type 0} where
  -- What holds of the engine and the error, if there is one.
  abbrev pub OnFailure : (Engine R → Failure → Type 0) → Engine R × Outcome A → Type 0
  OnFailure P (e, ok x) = Unit
  OnFailure P (e, failed x) = P e x

module _ {R : Type 0} where
  abbrev pub Unchanged : Engine R → Engine R → Failure → Type 0
  Unchanged e e' x = e' ≡ e

  -- A restart that fails: for want of the download, and nothing happened; or because the client
  -- refuses the torrent, and then the download is gone from the map, but not from the state file.
  abbrev pub LosesOne : Client → Text → Engine R → Engine R → Failure → Type 0
  LosesOne c hash e e' x =
      ((e' ≡ e) × ((x ≡ bad_hex) ⊎ (x ≡ no_such_download)))
      ⊎ ((x ≡ client_refused)
          × ((h : Text) × (c.from_hex hash ≡ some h) × (lookup text_discrete h e'.downloads ≡ none))
          × (e'.heap ≡ e.heap)
          × (e'.state_file ≡ e.state_file))

  forget-LosesOne :
      (c : Client) (hash h : Text) (d : _) (e : Engine R)
      → c.from_hex hash ≡ some h
      → LosesOne c hash e (forget h d e) client_refused
  unfolding forget
  forget-LosesOne c hash h d e good =
      inr (refl, (h, good, lookup-delete_self text_discrete h e.downloads), refl, refl)

  module _ (still : R) (c : Client) (now : ℕ) (written : Bool) (e : Engine R) where
    remove-Unchanged : (hash : Text) → OnFailure (Unchanged e) (remove c written hash e)
    unfolding remove
    remove-Unchanged hash = elim (Option-cases (c.from_hex hash)) [
      | inl bad ↦
          let gives : remove c written hash e ≡ (e, failed bad_hex) = rw (bad, remove) refl in
          rw (gives) refl
      | inr (h, good) ↦ elim (Option-cases (find h e)) [
        | inl absent ↦
            let gives : remove c written hash e ≡ (e, failed no_such_download) =
              rw (good, remove) (rw (absent, remove) refl) in
            rw (gives) refl
        | inr (d, here) ↦ rw (good, OnFailure, remove) (rw (here, OnFailure, remove) tt)
      ]
    ]

    restart-LosesOne :
        (hash : Text) → OnFailure (LosesOne c hash e) (restart still c now written hash e)
    unfolding restart
    restart-LosesOne hash = elim (Option-cases (c.from_hex hash)) [
      | inl bad ↦
          let gives : restart still c now written hash e ≡ (e, failed bad_hex) =
            rw (bad, restart) refl in
          rw (gives) (inl (refl, inl refl))
      | inr (h, good) ↦ elim (Option-cases (find h e)) [
        | inl absent ↦
            let gives : restart still c now written hash e ≡ (e, failed no_such_download) =
              rw (good, restart) (rw (absent, restart) refl) in
            rw (gives) (inl (refl, inr refl))
        | inr (d, here) ↦ elim (Option-cases (re_add c h d)) [
          | inl refused ↦
              let gives : restart still c now written hash e
                  ≡ (forget h d e, failed client_refused) =
                rw (good, restart) (rw (here, restart) (rw (refused, restart) refl)) in
              rw (gives) (forget-LosesOne c hash h d e good)
          | inr (t, given) ↦
              rw (good, OnFailure, restart)
                (rw (here, OnFailure, restart) (rw (given, OnFailure, restart) tt))
        ]
      ]
    ]

    add_magnet-Unchanged :
        (uri : Text) → OnFailure (Unchanged e) (add_magnet still c now written uri e)
    unfolding add_magnet
    add_magnet-Unchanged uri = elim (Option-cases (c.add_magnet uri)) [
      | inl refused ↦
          let gives : add_magnet still c now written uri e ≡ (e, failed client_refused) =
            rw (refused, add_magnet) refl in
          rw (gives) refl
      | inr (t, given) ↦ rw (given, OnFailure, add_magnet) tt
    ]

    add_info_hash-Unchanged :
        ⦃u : Unicode⦄ (text : Text)
        → OnFailure (Unchanged e) (add_info_hash still c now written text e)
    unfolding add_info_hash
    add_info_hash-Unchanged text =
        let hex = to_lower (trim_space text) in
        elim (Bool-cases (byte_len hex == 40)) [
          | inr short ↦
              let gives : add_info_hash still c now written text e
                  ≡ (e, failed (bad_length (byte_len hex))) =
                rw (short, add_info_hash) refl in
              rw (gives) refl
          | inl long ↦ elim (Option-cases (c.from_hex hex)) [
            | inl bad ↦
                let gives : add_info_hash still c now written text e ≡ (e, failed bad_hex) =
                  rw (long, add_info_hash) (rw (bad, add_info_hash) refl) in
                rw (gives) refl
            | inr (h, good) ↦
                rw (long, OnFailure, add_info_hash) (rw (good, OnFailure, add_info_hash) tt)
          ]
        ]

    -- An addition by magnet or hash, or a removal, that fails leaves the engine as it was, the state
    -- file included. So does a restart of an unknown or malformed hash; a restart whose torrent the
    -- client refuses takes the download out of the map, and leaves the heap and the state file.
    pub failures-lem :
        ⦃u : Unicode⦄ (text : Text)
        → OnFailure (Unchanged e) (add_magnet still c now written text e)
          × OnFailure (Unchanged e) (add_info_hash still c now written text e)
          × OnFailure (Unchanged e) (remove c written text e)
          × OnFailure (LosesOne c text e) (restart still c now written text e)
    failures-lem text = (
      add_magnet-Unchanged text,
      add_info_hash-Unchanged text,
      remove-Unchanged text,
      restart-LosesOne text,
    )
