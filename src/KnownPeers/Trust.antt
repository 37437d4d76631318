-- ===== src/KnownPeers/Trust.antt =====
-- known_peers.rs: when a peer is accepted, what is remembered of it, and that the disk has it.
use p2pfile_transfer.Common.{
  ℕ, ◌≡◌, ◌≢◌, refl, sym, ap, ◌∙◌, ◌⊎◌, inl, inr, List, [], ◌∷◌, ◌++◌, Option, none, some, arith,
  bytes_eq, bytes_eq→eq, Bool-cases, length, length-append, subst,
}
use Prim.Native.String.{String}
use p2pfile_transfer.Common.Maps.{
  bytes_key, get, insert, get-insert_same, get-insert_other, key_decides,
}
use p2pfile_transfer.Errors.{Result, ok, err, panic, fingerprint_mismatch}
use p2pfile_transfer.Effects.{and_then}
use p2pfile_transfer.Protocol.{Digest}
use p2pfile_transfer.Files.{FilePath, Files, touch, replace_file}
use p2pfile_transfer.Files.Atomic.{and_then-by, Replaced, replace_file-Replaced}
use p2pfile_transfer.Files.Calls.{Still, touch-Still, touch_no_panic}
use p2pfile_transfer.KnownPeers.{
  Store, SameStore, Encoding, KnownPeers, tmp_path, on_files, seen, encoded, written, get_peer,
  flush, trust, verify_or_pin,
}

tmp_is_other : (path : FilePath) → tmp_path path ≢ path
unfolding tmp_path
tmp_is_other path e =
    let l : length (path ++ (46 ∷ 116 ∷ 109 ∷ 112 ∷ [])) ≡ length path = ap length e in
    absurd (omega (arith, l, length-append path (46 ∷ 116 ∷ 109 ∷ 112 ∷ [])))

-- The file has these bytes, or it has what it had.
abbrev Written : FilePath → List ℕ → Files → Result (Unit {0}) × Files → Type 0
Written path bytes s (ok _, t) = get t.contents path ≡ some bytes
Written path bytes s (err e, t) = get t.contents path ≡ get s.contents path
Written path bytes s (panic, t) = ⊥

module _ (path : FilePath) (bytes : List ℕ) (s : Files) where
  stored-Written :
      (t : Files)
      → get t.contents path ≡ get s.contents path
      → (r : Result (Unit {0}) × Files) → Replaced (tmp_path path) path bytes t r
      → Written path bytes s r
  stored-Written t same (ok _, u) (now, _) = now
  stored-Written t same (err e, u) apart = apart path (tmp_is_other path) ∙ same
  stored-Written t same (panic, u) h = h

  written-Written : Written path bytes s (written path bytes s)
  unfolding written
  written-Written =
      and_then-by (Written path bytes s) (touch s) (λ _. replace_file (tmp_path path) path bytes)
        (λ _ t e.
          stored-Written t (subst (λ p. Still s p.1) e (touch-Still s) path) _
            (replace_file-Replaced (tmp_path path) path bytes (tmp_is_other path) t))
        (λ x t e. subst (λ p. Still s p.1) e (touch-Still s) path) (λ t e. touch_no_panic s t e)

module _ (encoding : Encoding) where
  -- The file at the path loads to a store with these entries.
  pub record Holds (files : Files) (path : FilePath) (store : Store) : Type 0 where
    pub bytes : List ℕ
    pub loaded : Store
    pub there : get files.contents path ≡ some bytes
    pub parses : encoding.from_slice bytes ≡ some loaded
    pub same : SameStore loaded store

  -- What a flush comes to; the store in memory is the same either way.
  abbrev pub Flushed : KnownPeers → Result (Unit {0}) × KnownPeers → Type 0
  Flushed s (ok _, t) = (t.state ≡ s.state) × Holds t.files s.path s.state
  Flushed s (err e, t) =
      (t.state ≡ s.state) × (get t.files.contents s.path ≡ get s.files.contents s.path)
  Flushed s (panic, t) = ⊥

  flush-Flushed : (s : KnownPeers) → Flushed s (flush encoding s)
  unfolding flush encoded on_files
  flush-Flushed s = by_encoding (encoding.to_vec s.state) refl
    where
      by_written :
          (bytes : List ℕ)
          → encoding.to_vec s.state ≡ some bytes
          → (r : Result (Unit {0}) × Files) → Written s.path bytes s.files r
          → Flushed s (r.0, record s { files = r.1 })
      by_written bytes e (ok _, f) now =
          let (t, parses, same) = encoding.from_slice-to_vec s.state bytes e in
          (refl, record { bytes = bytes; loaded = t; there = now; parses = parses; same = same })
      by_written bytes e (err x, f) h = (refl, h)
      by_written bytes e (panic, f) h = h

      by_encoding :
          (o : Option (List ℕ))
          → encoding.to_vec s.state ≡ o
          → Flushed s (and_then (encoded o, s) (λ bytes. on_files (written s.path bytes)))
      by_encoding none e = (refl, refl)
      by_encoding (some bytes) e =
          by_written bytes e (written s.path bytes s.files) (written-Written s.path bytes s.files)

  -- What `verify_or_pin` comes to at a peer with this record before.
  pub record Pinned (claimed presented : Digest) (name : String) (now : ℕ) (s t : KnownPeers)
      : Type 0 where
    pub presents : claimed ≡ presented
    pub remembers : get_peer encoding claimed t ≡ some (seen name now (get_peer encoding claimed s))
    pub others : (fp : Digest) → (claimed ≡ fp) ⊎ (get_peer encoding fp t ≡ get_peer encoding fp s)
    pub durable : Holds t.files s.path t.state

  abbrev pub Verified :
      Digest → Digest → String → ℕ → KnownPeers → Result (Unit {0}) × KnownPeers → Type 0
  Verified claimed presented name now s (ok _, t) = Pinned claimed presented name now s t
  Verified claimed presented name now s (err e, t) =
      ((claimed ≡ presented) ⊎ ((e ≡ fingerprint_mismatch) × (t ≡ s)))
      × (get t.files.contents s.path ≡ get s.files.contents s.path)
  Verified claimed presented name now s (panic, t) = ⊥

  module _ (claimed presented : Digest) (name : String) (now : ℕ) (s : KnownPeers)
      (equal : claimed ≡ presented) where
    abbrev key : List ℕ
    key = encoding.encode claimed

    abbrev store : Store
    store = insert s.state key (seen name now (get s.state key))

    trusted-Verified :
        (r : Result (Unit {0}) × KnownPeers)
        → Flushed (record s { state = store }) r
        → Verified claimed presented name now s r
    unfolding get_peer
    trusted-Verified (ok _, t) (same, holds) = record {
      presents = equal;
      remembers =
          ap (λ m. get m key) same ∙ get-insert_same s.state key (seen name now (get s.state key));
      others = λ fp. elim (key_decides key (encoding.encode fp)) [
        | inl e ↦ inl (encoding.encode_inj claimed fp e)
        | inr d ↦ inr (
            ap (λ m. get m (encoding.encode fp)) same
            ∙ get-insert_other s.state key (encoding.encode fp) _ d)
      ];
      durable = subst (Holds t.files s.path) (sym same) holds;
    }
    trusted-Verified (err e, t) (same, disk) = (inl equal, disk)
    trusted-Verified (panic, t) h = h

  -- A peer is accepted only if it presents the certificate that it claims; then it is remembered under
  -- that fingerprint, with the time of its first acceptance and of this one, the other peers are
  -- remembered as before, and the file on the disk loads to the same entries. A peer that presents
  -- another certificate is refused and nothing is changed. Whatever fails, a refusal leaves the file
  -- as it was.
  pub verify_or_pin-Verified :
      (claimed presented : Digest) (name : String) (now : ℕ) (s : KnownPeers)
      → Verified claimed presented name now s (verify_or_pin encoding claimed presented name now s)
  unfolding verify_or_pin trust
  verify_or_pin-Verified claimed presented name now s =
      elim (Bool-cases (bytes_eq claimed presented)) [
        | inl e ↦ rw e (
            trusted-Verified claimed presented name now s (bytes_eq→eq claimed presented e) _
              (flush-Flushed _))
        | inr e ↦ rw e (inr (refl, refl), refl)
      ]
