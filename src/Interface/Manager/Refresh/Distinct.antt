-- ===== src/Interface/Manager/Refresh/Distinct.antt =====
-- What `refresh_interfaces` of network-daemon/src/interface/mod.rs takes from the kernel keeps apart what
-- the kernel keeps apart.
use mathlib.Core.Path.{subst}
use network_daemon.Prelude.{
  ◌≡◌, sym, ◌∙◌, Option, List, [], ◌∷◌, Bool, ok, err, Result-cases, inl, inr, Bool-cases,
  string_key, arith,
}
use network_daemon.Prelude.Map
use network_daemon.Config.{DaemonConfig, InterfaceConfig}
use network_daemon.Interface.Info.{InterfaceInfo}
use network_daemon.Interface.Machine.{Machine}
use network_daemon.Interface.Table.Indexed.{IsIndexed}
use network_daemon.Interface.Table.Clashes.{Apart, AllApart}
use network_daemon.Interface.Manager.{InterfaceManager, Error, netlink_query, lift, ◌>>=◌}
use network_daemon.Interface.Manager.Keeps.{>>=-ok}
use network_daemon.Interface.Manager.Restore.{
  apply_policy, apply_policies, apply_saved_policies, create_configured_links, create_auto_wlans,
}
use network_daemon.Interface.Manager.Refresh.{
  query_again, applied, with_wlans, with_links, report, refresh_interfaces,
}
use network_daemon.Interface.Manager.Refresh.Replaced.{
  refresh_interfaces_fails, refresh_interfaces-replace_interfaces, replace_interfaces-IsIndexed,
}

-- No two interfaces that the kernel reports share a name or an index.
abbrev pub ReportsApart : Machine → Type 0
ReportsApart m = (s : m.State) (l : List InterfaceInfo) → (m.query_links s).0 ≡ ok l → AllApart l

module _ (m : Machine) where
  apply_policy_lem :
      (policy : Option InterfaceConfig) (i : InterfaceInfo) (s : m.State)
      → ((apply_policy m policy i s).0.name ≡ i.name) × ((apply_policy m policy i s).0.id ≡ i.id)
  unfolding apply_policy
  apply_policy_lem policy i s = (ground arith, ground arith)

  Apart-apply_policies :
      (config : DaemonConfig) (a b : InterfaceInfo) (l : List InterfaceInfo) (s : m.State)
      → b.name ≡ a.name
      → b.id ≡ a.id
      → Apart a l
      → Apart b (apply_policies m config l s).0
  unfolding apply_policies
  Apart-apply_policies config a b [] s name id _ = tt
  Apart-apply_policies config a b (c ∷ l) s name id (name', id', apart) =
      let policy = Map.get c.name config.interfaces in
      let (same_name, same_id) = apply_policy_lem policy c s in
      (
        λ e. name' (sym name ∙ e ∙ same_name),
        λ e. id' (sym id ∙ e ∙ same_id),
        Apart-apply_policies config a b l (apply_policy m policy c s).1 name id apart,
      )

  AllApart-apply_policies :
      (config : DaemonConfig) (l : List InterfaceInfo) (s : m.State)
      → AllApart l
      → AllApart (apply_policies m config l s).0
  unfolding apply_policies
  AllApart-apply_policies config [] s _ = tt
  AllApart-apply_policies config (c ∷ l) s (apart, rest) =
      let policy = Map.get c.name config.interfaces in
      let (same_name, same_id) = apply_policy_lem policy c s in
      let s' = (apply_policy m policy c s).1 in
      (
        Apart-apply_policies config c (apply_policy m policy c s).0 l s' same_name same_id apart,
        AllApart-apply_policies config l s' rest,
      )

  AllApart-apply_saved_policies :
      (l : List InterfaceInfo) (s : m.State) → AllApart l → AllApart (apply_saved_policies m l s).0
  unfolding apply_saved_policies
  AllApart-apply_saved_policies l s h = elim (Result-cases (m.load s)) [
    | inl (config, e) ↦ subst AllApart (ground (arith, e)) (AllApart-apply_policies config l s h)
    | inr (x, e) ↦ subst AllApart (ground (arith, e)) h
  ]

  query_again-AllApart :
      ReportsApart m
      → (create : List InterfaceInfo → m.State → Bool × m.State) (l l' : List InterfaceInfo)
        (self : InterfaceManager) (s : m.State)
      → AllApart l
      → (query_again m create l self s).0 ≡ ok l'
      → AllApart l'
  unfolding query_again
  query_again-AllApart laws create l l' self s h e = elim (Bool-cases (create l s).0) [
    | inl again ↦ laws (create l s).1 l' (ground (arith, e, again))
    | inr kept ↦ subst AllApart (ground (arith, e, kept)) h
  ]

  with_links-AllApart :
      ReportsApart m
      → (self : InterfaceManager) (s : m.State) (i l : List InterfaceInfo) → AllApart i
      → (with_links m i self s).0 ≡ ok l
      → AllApart l
  unfolding with_links with_wlans applied
  with_links-AllApart laws self s i l h e =
      let configure = query_again m (create_configured_links m) i in
      let (j, first, rest) = >>=-ok configure (with_wlans m) self s l e in
      let self' = (configure self s).1 in
      let s' = (configure self s).2 in
      let at_j = query_again-AllApart laws (create_configured_links m) i j self s h first in
      let automatic = query_again m (create_auto_wlans m) j in
      let (k, second, last) = >>=-ok automatic (applied m) self' s' l rest in
      let at_k = query_again-AllApart laws (create_auto_wlans m) j k self' s' at_j second in
      subst AllApart (ground (arith, last))
        (AllApart-apply_saved_policies k (automatic self' s').2 at_k)

  report-AllApart :
      ReportsApart m
      → (self : InterfaceManager) (s : m.State) (l : List InterfaceInfo)
      → (report m self s).0 ≡ ok l
      → AllApart l
  unfolding report
  report-AllApart laws self s l h =
      let start = lift netlink_query m.new_query in
      let ask = lift netlink_query m.query_links in
      let (u, _, rest) = >>=-ok start (λ _. ask >>= with_links m) self s l h in
      let self' = (start self s).1 in
      let s' = (start self s).2 in
      let (i, asked, last) = >>=-ok ask (with_links m) self' s' l rest in
      with_links-AllApart laws (ask self' s').1 (ask self' s').2 i l
        (laws s' i (ground (arith, asked))) last

  refresh_interfaces-error :
      (self : InterfaceManager) (s : m.State) (x : Error m)
      → (report m self s).0 ≡ err x
      → (refresh_interfaces m self s).0 ≡ err x
  unfolding refresh_interfaces
  refresh_interfaces-error self s x e = ground (arith, e)

  -- If no two interfaces that the kernel reports share a name or an index, a refresh keeps the table
  -- well-formed, and makes it so when it succeeds.
  pub refresh_interfaces-IsIndexed :
      ReportsApart m
      → (self : InterfaceManager) (s : m.State) → IsIndexed self.table
      → IsIndexed (refresh_interfaces m self s).1.table
  refresh_interfaces-IsIndexed laws self s h = elim (Result-cases (report m self s).0) [
    | inl (l, e) ↦
        let (_, replaced) = refresh_interfaces-replace_interfaces m self s l e in
        let (indexed, _) = replace_interfaces-IsIndexed l self (report-AllApart laws self s l e) in
        rw replaced indexed
    | inr (x, e) ↦
        let same = refresh_interfaces_fails m self s x (refresh_interfaces-error self s x e) in
        rw same h
  ]
