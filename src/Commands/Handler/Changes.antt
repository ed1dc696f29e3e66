-- ===== src/Commands/Handler/Changes.antt =====
-- When the command handler bumps the version of the configuration.
use arrow_client.Base.{
  ◌≡◌, ◌≢◌, ◌↔◌, inl, inr, refl, sym, ap, true, false, none, List, [], ◌∷◌, arith, Bool-cases,
}
use arrow_client.Commands.Seconds.{Float}
use arrow_client.Commands.Handler.{Handler, same_services, notice_changes, complete_scan}
use arrow_client.Config
use arrow_client.Config.{AppContext, ArrowConfig}
use arrow_client.Protocol.Service.{Service}

same_services_eq : (ss ts : List Service) → same_services ss ts ≡ true → ss ≡ ts
unfolding same_services
same_services_eq [] [] h = refl
same_services_eq [] (t ∷ ts) h = absurd (ground arith)
same_services_eq (s ∷ ss) [] h = absurd (ground arith)
same_services_eq (s ∷ ss) (t ∷ ts) h = ground (arith, same_services_eq ss ts)

same_services_refl : (ss : List Service) → same_services ss ss ≡ true
unfolding same_services
same_services_refl [] = refl
same_services_refl (s ∷ ss) = ground (arith, same_services_refl ss)

bumped : (c : ArrowConfig) → Config.bump_version c ≢ c
bumped c e = let v = ap (λ c. c.version) e in omega (arith, v)

services_differ : (ss ts : List Service) → same_services ss ts ≡ false → ss ≢ ts
services_differ ss ts other e =
    let yes' = ap (same_services ss) e in ground (arith, other, yes', same_services_refl ss)

-- The end of a scan releases the scanner and clears the flag of the context, takes note of the active
-- services, and bumps the version of the configuration exactly when they are not those of which it
-- took note before; otherwise the configuration stays as it is.
pub complete_scan_lem :
    (f : Float) (h : Handler f)
    → let config = h.app_context.config in
      let active = Config.active_services config in
      let h' = complete_scan f h in
      (h'.scanner ≡ none)
      × (h'.app_context.scanning ≡ false)
      × (h'.active_services ≡ active)
      × ((h'.app_context.config ≡ config) ↔ (h.active_services ≡ active))
      × ((h'.app_context.config ≡ Config.bump_version config) ↔ (h.active_services ≢ active))
unfolding complete_scan notice_changes
complete_scan_lem f h =
    let active = Config.active_services h.app_context.config in
    let config = h.app_context.config in
    elim (Bool-cases (same_services h.active_services active)) [
      | inl same ↦
          let e = same_services_eq h.active_services active same in
          rw same (
            refl,
            refl,
            e,
            ((λ _. e), (λ _. refl)),
            ((λ b. absurd (bumped config (sym b))), (λ ne. absurd (ne e))),
          )
      | inr other ↦
          let ne : h.active_services ≢ active =
            λ e. services_differ h.active_services active other e in
          rw other (
            refl,
            refl,
            refl,
            ((λ b. absurd (bumped config b)), (λ e. absurd (ne e))),
            ((λ _. ne), (λ _. refl)),
          )
    ]
