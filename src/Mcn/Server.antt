-- ===== src/Mcn/Server.antt =====
-- What the manager relies on of the broker's API server, stated of one call at a time while no
-- other client writes, and what updateMCN and GetMCN do on such a server.
use mcn.Prelude.{
  String, true, false, none, some, List, [], ◌∷◌, ◌++◌, ◌≡◌, ◌⊎◌, inl, inr, refl, arith,
}
use mcn.Kube.{Result, ok, err, Error, wrap, is_not_found, Result-cases, Value}
use mcn.Crd.{MultiClusterNetwork}
use mcn.Vni.Allocate.{Listed, listing}
use mcn.Mcn.{McnManager, networks, get_mcn, update_mcn}
use mcn.Mcn.Stored.{find, replace, without, SameNetwork, Stored}

-- A written network as the server hands it back, and the networks stored after the write. The
-- server takes a network away when its last finalizer goes while it is being deleted.
pub record IsWritten (n r : MultiClusterNetwork) (before after : List MultiClusterNetwork)
    : Type 0 where
  pub same : SameNetwork n r
  pub known : (old : MultiClusterNetwork) × (find r.meta.name before ≡ some old)
  pub stores :
      (after ≡ replace r before)
      ⊎ ((n.meta.deleting ≡ true) × (n.meta.finalizers ≡ []) × (after ≡ without r.meta.name before))

-- `stored w` are the networks in the broker's namespace, in the server's state `w`.
pub record IsServer {W : Type 0} (m : McnManager W) (stored : W → List MultiClusterNetwork)
    : Type 0 where
  -- Reads change nothing.
  pub get_keeps : (name : String) (w : W) → stored ((networks m).get name w).1 ≡ stored w
  pub list_keeps : (w : W) → stored (listing m.vni_allocator w).1 ≡ stored w
  -- Get finds what is stored under the name, and reports NotFound if nothing is.
  pub get_finds :
      (name : String) (w : W) (u : Value) (n : MultiClusterNetwork)
      → ((networks m).get name w).0 ≡ ok u
      → m.converter.from_unstructured u ≡ ok n
      → find name (stored w) ≡ some n
  pub get_misses :
      (name : String) (w : W) (e : Error)
      → ((networks m).get name w).0 ≡ err e
      → is_not_found e ≡ true
      → find name (stored w) ≡ none
  -- A failed conversion is no API status.
  pub convert_reason :
      (u : Value) (e : Error) → m.converter.from_unstructured u ≡ err e → is_not_found e ≡ false
  -- The allocator's List, in the same namespace, shows the stored networks, every one and no other.
  pub list_shows :
      (w : W) (us : List Value) (n : MultiClusterNetwork)
      → (listing m.vni_allocator w).0 ≡ ok us
      → Stored n (stored w)
      → Listed m.vni_allocator.converter n us
  pub list_only :
      (w : W) (us : List Value) (n : MultiClusterNetwork)
      → (listing m.vni_allocator w).0 ≡ ok us
      → Listed m.vni_allocator.converter n us
      → Stored n (stored w)
  -- Create adds a network under a name that was free, or changes nothing.
  pub create_adds :
      (n : MultiClusterNetwork) (w : W) (u c : Value)
      → m.converter.to_unstructured n ≡ ok u
      → ((networks m).create u w).0 ≡ ok c
      → (r : MultiClusterNetwork) × (m.converter.from_unstructured c ≡ ok r)
        × SameNetwork n r
        × (find r.meta.name (stored w) ≡ none)
        × (stored ((networks m).create u w).1 ≡ stored w ++ r ∷ [])
  pub create_fails :
      (u : Value) (w : W) (e : Error)
      → ((networks m).create u w).0 ≡ err e
      → stored ((networks m).create u w).1 ≡ stored w
  -- Update replaces a network that is stored, or changes nothing.
  pub update_writes :
      (n : MultiClusterNetwork) (w : W) (u c : Value)
      → m.converter.to_unstructured n ≡ ok u
      → ((networks m).update u w).0 ≡ ok c
      → (r : MultiClusterNetwork) × (m.converter.from_unstructured c ≡ ok r)
        × IsWritten n r (stored w) (stored ((networks m).update u w).1)
  pub update_fails :
      (u : Value) (w : W) (e : Error)
      → ((networks m).update u w).0 ≡ err e
      → stored ((networks m).update u w).1 ≡ stored w

-- What a write of `n` has done, by how it ended.
abbrev pub Written :
    MultiClusterNetwork
    → List MultiClusterNetwork
    → List MultiClusterNetwork
    → Result MultiClusterNetwork
    → Type 0
Written n before after (ok r) = IsWritten n r before after
Written n before after (err e) = after ≡ before

-- What a read under a name says of the stored networks.
abbrev pub Read : String → List MultiClusterNetwork → Result MultiClusterNetwork → Type 0
Read name before (ok n) = find name before ≡ some n
Read name before (err e) = is_not_found e ≡ true → find name before ≡ none

-- updateMCN and GetMCN, by how their calls end.
module _ {W : Type 0} (m : McnManager W) (w : W) where
  update_ok :
      (n : MultiClusterNetwork) (u c : Value) (r : MultiClusterNetwork)
      → m.converter.to_unstructured n ≡ ok u
      → ((networks m).update u w).0 ≡ ok c
      → m.converter.from_unstructured c ≡ ok r
      → update_mcn m n w ≡ (ok r, ((networks m).update u w).1)
  unfolding update_mcn
  update_ok n u c r e d f = ground arith

  update_err :
      (n : MultiClusterNetwork) (u : Value) (b : Error)
      → m.converter.to_unstructured n ≡ ok u
      → ((networks m).update u w).0 ≡ err b
      → update_mcn m n w ≡ (err b, ((networks m).update u w).1)
  unfolding update_mcn
  update_err n u b e d = ground arith

  update_unconverted :
      (n : MultiClusterNetwork) (b : Error)
      → m.converter.to_unstructured n ≡ err b
      → update_mcn m n w ≡ (err (wrap "failed to convert MCN to unstructured" b), w)
  unfolding update_mcn
  update_unconverted n b e = ground arith

  get_ok :
      (name : String) (u : Value) (n : MultiClusterNetwork)
      → ((networks m).get name w).0 ≡ ok u
      → m.converter.from_unstructured u ≡ ok n
      → (get_mcn m name w).0 ≡ ok n
  unfolding get_mcn
  get_ok name u n e d = ground arith

  get_unconverted :
      (name : String) (u : Value) (b : Error)
      → ((networks m).get name w).0 ≡ ok u
      → m.converter.from_unstructured u ≡ err b
      → (get_mcn m name w).0 ≡ err (wrap "failed to convert MCN from unstructured" b)
  unfolding get_mcn
  get_unconverted name u b e d = ground arith

  get_err :
      (name : String) (b : Error)
      → ((networks m).get name w).0 ≡ err b
      → (get_mcn m name w).0 ≡ err b
  unfolding get_mcn
  get_err name b e = ground arith

module _ {W : Type 0} (m : McnManager W) (stored : W → List MultiClusterNetwork)
    (s : IsServer m stored) where
  pub update_mcn-Written :
      (n : MultiClusterNetwork) (w : W)
      → Written n (stored w) (stored (update_mcn m n w).1) (update_mcn m n w).0
  update_mcn-Written n w = elim (Result-cases (m.converter.to_unstructured n)) [
    | inl (u, e) ↦ elim (Result-cases ((networks m).update u w).0) [
      | inl (c, d) ↦
          let (r, f, h) = s.update_writes n w u c e d in rw (update_ok m w n u c r e d f) h
      | inr (b, d) ↦ rw (update_err m w n u b e d) (s.update_fails u w b d)
    ]
    | inr (b, e) ↦ rw (update_unconverted m w n b e) refl
  ]

  pub get_mcn-Read : (name : String) (w : W) → Read name (stored w) (get_mcn m name w).0
  get_mcn-Read name w = elim (Result-cases ((networks m).get name w).0) [
    | inl (u, e) ↦ elim (Result-cases (m.converter.from_unstructured u)) [
      | inl (n, d) ↦ rw (get_ok m w name u n e d) (s.get_finds name w u n e d)
      | inr (b, d) ↦
          rw (get_unconverted m w name u b e d) (λ missing. cc (s.convert_reason u b d, missing))
    ]
    | inr (b, e) ↦ rw (get_err m w name b e) (s.get_misses name w b e)
  ]

  pub get_mcn-keeps : (name : String) (w : W) → stored (get_mcn m name w).1 ≡ stored w
  unfolding get_mcn
  get_mcn-keeps name w = ground (arith, s.get_keeps name w)
