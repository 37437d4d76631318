-- ===== src/KnownPeers.antt =====
-- p2p-core/src/known_peers.rs: the store of the peers that were trusted on first use. A map is a list of
-- entries; the clock is an argument; serde_json and the hexadecimal keys are parameters.
pub mod Trust
pub mod Runs
use Prim.Native.String.{String}
use p2pfile_transfer.Common.{
  ℕ, ◌≡◌, Bool, true, false, List, [], ◌∷◌, ◌++◌, Option, none, some, bytes_eq, if◌then◌else◌,
}
use p2pfile_transfer.Common.Maps.{bytes_key, get, insert, remove}
use p2pfile_transfer.Errors.{Result, ok, err, panic, network, other, fingerprint_mismatch}
use p2pfile_transfer.Effects.{M, and_then, ◌>>=◌, ◌>>◌, done, lift}
use p2pfile_transfer.Protocol.{Digest}
use p2pfile_transfer.Files.{FilePath, Files, read, touch, replace_file}

pub record PeerRecord : Type 0 where
  pub display_name : String
  pub first_seen : ℕ
  pub last_seen : ℕ

abbrev pub Store : Type 0
Store = List (List ℕ × PeerRecord)

-- Two stores with the same entries.
abbrev pub SameStore : Store → Store → Type 0
SameStore s t = (k : List ℕ) → get s k ≡ get t k

-- serde_json and hex: a store that was encoded decodes to one with the same entries, and different
-- fingerprints have different keys.
pub record Encoding : Type 0 where
  pub to_vec : Store → Option (List ℕ)
  pub from_slice : List ℕ → Option Store
  pub encode : Digest → List ℕ
  pub from_slice-to_vec :
      (s : Store) (bytes : List ℕ)
      → to_vec s ≡ some bytes
      → (t : Store) × (from_slice bytes ≡ some t) × SameStore t s
  pub encode_inj : (a b : Digest) → encode a ≡ encode b → a ≡ b

-- The store and the disk under it.
pub record KnownPeers : Type 0 where
  pub path : FilePath
  pub state : Store
  pub files : Files

abbrev tmp_suffix : List ℕ
tmp_suffix = 46 ∷ 116 ∷ 109 ∷ 112 ∷ []

-- `".tmp"` behind the file's name.
unfoldable pub tmp_path : FilePath → FilePath
tmp_path path = path ++ tmp_suffix

on_files : {A : Type 0} → M Files A → M KnownPeers A
on_files m s = ((m s.files).0, record s { files = (m s.files).1 })

-- An empty name does not replace one.
unfoldable pub named : String → PeerRecord → PeerRecord
named String.[] r = r
named (String.◌∷◌ c name) r = record r { display_name = String.◌∷◌ c name }

unfoldable pub seen : String → ℕ → Option PeerRecord → PeerRecord
seen display_name now none = record {
  display_name = display_name;
  first_seen = now;
  last_seen = now;
}
seen display_name now (some r) = named display_name (record r { last_seen = now })

encoded : Option (List ℕ) → Result (List ℕ)
encoded none = err other
encoded (some bytes) = ok bytes

written : FilePath → List ℕ → M Files (Unit {0})
written path bytes = do touch; replace_file (tmp_path path) path bytes

is_there : Option (List ℕ) → Bool
is_there none = false
is_there (some bytes) = true

-- `Path::exists`: a look that fails counts as no file.
there_is : FilePath → Files → Bool × Files
unfolding is_there
there_is path s = elim ((touch s).0) [
  | ok _ ↦ (is_there (get (touch s).1.contents path), (touch s).1)
  | err e ↦ (false, (touch s).1)
  | panic ↦ (false, (touch s).1)
]

-- The parent directory is created, and no file.
new_store : FilePath → M Files KnownPeers
new_store path s =
    and_then (touch s) (λ _ t. (ok (record { path = path; state = []; files = t }), t))

module _ (encoding : Encoding) where
  -- The file that was there, read whole.
  opened : FilePath → Option (List ℕ) → M Files KnownPeers
  opened path none s = (err network, s)
  opened path (some bytes) s = elim (encoding.from_slice bytes) [
    | none ↦ (err other, s)
    | some store ↦ (ok (record { path = path; state = store; files = s }), s)
  ]

  -- `KnownPeers::open`
  unfoldable pub open_store : FilePath → M Files KnownPeers
  unfolding opened there_is new_store
  open_store path s =
      let (there, t) = there_is path s in
      let stored = and_then (read path t) (opened path) in
      if there then stored else new_store path t

  unfoldable pub get_peer : Digest → KnownPeers → Option PeerRecord
  get_peer fp s = get s.state (encoding.encode fp)

  unfoldable pub flush : M KnownPeers (Unit {0})
  unfolding encoded on_files written
  flush s =
      and_then (encoded (encoding.to_vec s.state), s) (λ bytes. on_files (written s.path bytes))

  unfoldable pub trust : Digest → String → ℕ → M KnownPeers (Unit {0})
  trust fp display_name now s =
      let key = encoding.encode fp in
      flush (record s { state = insert s.state key (seen display_name now (get s.state key)) })

  -- Known or not, the peer is trusted.
  unfoldable pub verify_or_pin : Digest → Digest → String → ℕ → M KnownPeers (Unit {0})
  verify_or_pin claimed_fp presented_fp display_name now s =
      if bytes_eq claimed_fp presented_fp
      then trust claimed_fp display_name now s
      else (err fingerprint_mismatch, s)

  unfoldable pub forget : Digest → M KnownPeers (Unit {0})
  forget fp s = flush (record s { state = remove s.state (encoding.encode fp) })
