-- ===== src/NfContext/Laws.antt =====
-- The services and the start of the context of internal/context/context.go.
use an_lf.Base.{
  ℕ, suc, ◌+◌, ◌≡◌, refl, ap, ◌∙◌, ◌⊎◌, inl, inr, false, none, some, List, [], ◌∷◌, ◌++◌, Bytes,
  bytes_eq, bytes_eq_refl, Dict, lookup, insert, lookup-insert, length, All, arith, Option-cases,
}
use an_lf.Settings.{Config, Sbi}
use an_lf.Settings.Getters.{section_of}
use an_lf.NfContext.{
  AnlfContext, NfService, nf_service_entry, add_services, init_nf_service, init_nf_context,
  with_services, bare_context,
}

module _ (c : AnlfContext) (version : Bytes) where
  add_services_other :
      (name : Bytes) (i : ℕ) (names : List Bytes) (services : Dict NfService)
      → All (λ n. bytes_eq n name ≡ false) names
      → lookup name (add_services c i names version services) ≡ lookup name services
  unfolding add_services
  add_services_other name i [] services h = refl
  add_services_other name i (n ∷ names) services h =
      add_services_other name (suc i) names (insert n (nf_service_entry c i n version) services) h.1
      ∙ lookup-insert n name (nf_service_entry c i n version) services
      ∙ rw h.0 refl

  add_services_found :
      (name : Bytes) (i : ℕ) (front rest : List Bytes) (services : Dict NfService)
      → All (λ n. bytes_eq n name ≡ false) rest
      → lookup name (add_services c i (front ++ name ∷ rest) version services)
        ≡ some (nf_service_entry c (i + length front) name version)
  unfolding add_services
  add_services_found name i [] rest services h =
      add_services_other name (suc i) rest
        (insert name (nf_service_entry c i name version) services) h
      ∙ lookup-insert name name (nf_service_entry c i name version) services
      ∙ rw (bytes_eq_refl name) (ap (λ k. some (nf_service_entry c k name version)) (omega arith))
  add_services_found name i (n ∷ front) rest services h =
      add_services_found name (suc i) front rest
        (insert n (nf_service_entry c i n version) services) h
      ∙ ap (λ k. some (nf_service_entry c k name version)) (omega arith)

  -- The map of services has, for each name of the list, the entry with the index of its last place
  -- as the identifier of the instance, and for any other name nothing.
  pub init_nf_service_lem :
      (name : Bytes) (front rest : List Bytes)
      → All (λ n. bytes_eq n name ≡ false) rest
      → (lookup name (init_nf_service c (front ++ name ∷ rest) version)
          ≡ some (nf_service_entry c (length front) name version))
        × (lookup name (init_nf_service c rest version) ≡ none)
  unfolding init_nf_service lookup
  init_nf_service_lem name front rest h = (
    add_services_found name 0 front rest [] h
        ∙ ap (λ k. some (nf_service_entry c k name version)) (omega arith),
    add_services_other name 0 rest [] h,
  )

module _ {F : Type 0} where
  -- `InitNfContext` panics exactly when the configuration has no section Sbi; otherwise the new
  -- context is not registered, has the identifier that was made for it, and takes its port, scheme
  -- and address from that section.
  pub init_nf_context_cases :
      (uuid : Bytes) (env : Bytes → Bytes) (c : Config F)
      → ((init_nf_context uuid env c ≡ none) × (section_of (λ k. k.sbi) c.configuration ≡ none))
        ⊎ ((s : Sbi) × (n : AnlfContext) × (section_of (λ k. k.sbi) c.configuration ≡ some s)
            × (init_nf_context uuid env c ≡ some n)
            × (n.nf_id ≡ uuid)
            × (n.is_registered ≡ false)
            × (n.uri_scheme ≡ s.scheme)
            × (n.sbi_port ≡ s.port)
            × (n.register_ipv4 ≡ s.register_ipv4))
  unfolding init_nf_context with_services
  init_nf_context_cases uuid env c = elim (Option-cases c.configuration) [
    | inl e ↦ rw e (inl (refl, refl))
    | inr (k, e) ↦ elim (Option-cases k.sbi) [
      | inl h ↦ rw e (inl (rw h refl, h))
      | inr (s, h) ↦ rw e (
          inr (
            s,
            with_services k (bare_context uuid env k s),
            h,
            rw h refl,
            refl,
            refl,
            refl,
            refl,
            refl,
          ))
    ]
  ]
