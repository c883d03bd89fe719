-- ===== src/Vtep/Ensured.antt =====
-- What a successful EnsureLocalVTEP has written.
use mcn.Prelude.{some, true, [], ◌∷◌, ◌≡◌, ◌⊎◌, inl, inr, refl, arith, Bool-cases}
use mcn.Kube.{Result, ok, err, Error, is_not_found, Value, str, slice, Result-cases}
use mcn.Paths.{path}
use mcn.Vtep.{VtepManager, vteps, local_vtep, ensure_local_vtep}

module _ {W : Type 0} (m : VtepManager W) where
  -- The VTEP object skynet-local, in the mode Unmanaged, with just the manager's subnet.
  pub record IsVtep (v : Value) : Type 0 where
    pub name : path ("metadata" ∷ "name" ∷ []) v ≡ some (str "skynet-local")
    pub cidrs : path ("spec" ∷ "cidrs" ∷ []) v ≡ some (slice (str m.vtep_cidr ∷ []))
    pub mode : path ("spec" ∷ "mode" ∷ []) v ≡ some (str "Unmanaged")

  -- The server accepted it in place of the object that it had, with its version, or as a new one.
  pub record IsEnsured (w later : W) : Type 0 where
    pub vtep : Value
    pub accepted : Value
    pub is_vtep : IsVtep vtep
    pub writes :
        ((u : Value) × (((vteps m).get "skynet-local" w).0 ≡ ok u)
          × ((vteps m).update
                (m.machinery.set_resource_version (m.machinery.get_resource_version u) vtep)
                ((vteps m).get "skynet-local" w).1
              ≡ (ok accepted, later)))
        ⊎ ((e : Error) × (((vteps m).get "skynet-local" w).0 ≡ err e)
            × (is_not_found e ≡ true)
            × ((vteps m).create vtep ((vteps m).get "skynet-local" w).1 ≡ (ok accepted, later)))

  local_vtep-IsVtep : IsVtep (local_vtep m)
  unfolding local_vtep
  local_vtep-IsVtep = record { name = refl; cidrs = refl; mode = refl }

  abbrev getting : W → Result Value × W
  getting = (vteps m).get "skynet-local"

  abbrev updating : Value → W → Result Value × W
  updating u w =
      (vteps m).update
        (m.machinery.set_resource_version (m.machinery.get_resource_version u) (local_vtep m))
        (getting w).1

  abbrev creating : W → Result Value × W
  creating w = (vteps m).create (local_vtep m) (getting w).1

  pub ensure_local_vtep-IsEnsured :
      (w w' : W) → ensure_local_vtep m w ≡ (ok tt, w') → IsEnsured w w'
  unfolding ensure_local_vtep
  ensure_local_vtep-IsEnsured w w' h = elim (Result-cases (getting w).0) [
    | inl (u, g) ↦ elim (Result-cases (updating u w).0) [
      | inr (e, k) ↦ absurd (ground arith)
      | inl (x, k) ↦ record {
        vtep = local_vtep m;
        accepted = x;
        is_vtep = local_vtep-IsVtep;
        writes = inl (u, g, ground arith);
      }
    ]
    | inr (e, g) ↦ elim (Bool-cases (is_not_found e)) [
      | inr other ↦ absurd (ground arith)
      | inl missing ↦ elim (Result-cases (creating w).0) [
        | inr (b, k) ↦ absurd (ground arith)
        | inl (x, k) ↦ record {
          vtep = local_vtep m;
          accepted = x;
          is_vtep = local_vtep-IsVtep;
          writes = inr (e, g, missing, ground arith);
        }
      ]
    ]
  ]
