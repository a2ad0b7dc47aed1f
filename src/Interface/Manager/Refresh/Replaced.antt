-- ===== src/Interface/Manager/Refresh/Replaced.antt =====
-- What `refresh_interfaces` of network-daemon/src/interface/mod.rs leaves in the table, and what it tells
-- the subscribers.
use Prim.Native.String.{String}
use mathlib.Core.List.{append-nil, append_assoc}
use network_daemon.Prelude.{
  ℕ, ◌≡◌, ◌≢◌, refl, sym, ◌∙◌, none, some, List, [], ◌∷◌, ◌++◌, map, false, if◌then◌else◌, ok, err,
  Result-cases, ◌===◌, inl, inr, string_key, arith,
}
use network_daemon.Prelude.Set
use network_daemon.Broadcast.Delivered.{received, received-broadcast}
use network_daemon.Interface.Info.{
  InterfaceInfo, InterfaceManagerEvent, interface_added, interface_removed, InterfaceInfo_key,
}
use network_daemon.Interface.Machine.{Machine}
use network_daemon.Interface.Table
use network_daemon.Interface.Table.{InterfaceTable, empty}
use network_daemon.Interface.Table.Indexed.{IsIndexed}
use network_daemon.Interface.Table.Clashes.{
  insert_all, insert_all-empty, Apart, AllApart, named_in, Apart-named_in,
}
use network_daemon.Interface.Manager.{InterfaceManager, Error, broadcast}
use network_daemon.Interface.Manager.Refresh.{
  broadcast_all, replace_interfaces, report, refresh_interfaces,
}
use network_daemon.Interface.Manager.Handler.Untouched.{report-Still}

table-broadcast_all :
    (events : List InterfaceManagerEvent) (self : InterfaceManager)
    → (broadcast_all events self).table ≡ self.table
unfolding broadcast_all broadcast
table-broadcast_all [] self = refl
table-broadcast_all (event ∷ events) self = table-broadcast_all events (broadcast event self)

received-broadcast_all :
    (r : ℕ) (events : List InterfaceManagerEvent) (self : InterfaceManager)
    (l : List InterfaceManagerEvent)
    → received r self.event_broadcaster.senders ≡ some l
    → received r (broadcast_all events self).event_broadcaster.senders ≡ some (l ++ events)
unfolding broadcast_all broadcast
received-broadcast_all r [] self l h = ground (arith, append-nil l, h)
received-broadcast_all r (event ∷ events) self l h = ground (
  arith,
  append_assoc l (event ∷ []) events,
  received-broadcast_all r events (broadcast event self) (l ++ event ∷ [])
      (received-broadcast r event self.event_broadcaster l h),
)

-- Interfaces of which no two share a name are all kept by a set, in the reverse order.
Apart-contains : (a : InterfaceInfo) (l : List InterfaceInfo) → Apart a l → Set.contains a l ≡ false
unfolding Set.contains
Apart-contains a [] _ = refl
Apart-contains a (b ∷ l) (name, id, apart) = ground (arith, name, Apart-contains a l apart)

named_in-append :
    (n : String) (l : List InterfaceInfo) (a : InterfaceInfo)
    → named_in n (l ++ a ∷ [])
      ≡ elim (named_in n l) [ none ↦ if a.name === n then some a else none | some b ↦ some b ]
named_in-append n [] a = refl
named_in-append n (b ∷ l) a = ground (arith, named_in-append n l a)

Apart-append :
    (b a : InterfaceInfo) (l : List InterfaceInfo)
    → Apart b l
    → b.name ≢ a.name
    → b.id ≢ a.id
    → Apart b (l ++ a ∷ [])
Apart-append b a [] _ name id = (name, id, tt)
Apart-append b a (c ∷ l) (name', id', apart) name id =
    (name', id', Apart-append b a l apart name id)

AllApart-append :
    (l : List InterfaceInfo) (a : InterfaceInfo) → AllApart l → Apart a l → AllApart (l ++ a ∷ [])
AllApart-append [] a _ _ = (tt, tt)
AllApart-append (b ∷ l) a (apart, rest) (name, id, apart') = (
  Apart-append b a l apart (λ e. name (sym e)) (λ e. id (sym e)),
  AllApart-append l a rest apart',
)

Apart-collect :
    (a : InterfaceInfo) (l : List InterfaceInfo) → AllApart l → Apart a l → Apart a (Set.collect l)
unfolding Set.collect
Apart-collect a [] _ _ = tt
Apart-collect a (b ∷ l) (apart, rest) (name, id, apart') =
    let fresh = Set.contains-collect b l ∙ Apart-contains b l apart in
    rw (Set.insert_absent b (Set.collect l) fresh)
      (Apart-append a b (Set.collect l) (Apart-collect a l rest apart') name id)

AllApart-collect : (l : List InterfaceInfo) → AllApart l → AllApart (Set.collect l)
unfolding Set.collect
AllApart-collect [] _ = tt
AllApart-collect (b ∷ l) (apart, rest) =
    let fresh = Set.contains-collect b l ∙ Apart-contains b l apart in
    rw (Set.insert_absent b (Set.collect l) fresh)
      (AllApart-append (Set.collect l) b (AllApart-collect l rest) (Apart-collect b l rest apart))

named_in-collect :
    (n : String) (l : List InterfaceInfo) → AllApart l → named_in n (Set.collect l) ≡ named_in n l
unfolding Set.collect
named_in-collect n [] _ = refl
named_in-collect n (b ∷ l) (apart, rest) =
    let fresh = Set.contains-collect b l ∙ Apart-contains b l apart in
    rw (Set.insert_absent b (Set.collect l) fresh) (
      ground (
        arith,
        named_in-append n (Set.collect l) b,
        named_in-collect n l rest,
        Apart-named_in b l apart,
      ))

pub replace_interfaces-IsIndexed :
    (interfaces : List InterfaceInfo) (self : InterfaceManager)
    → AllApart interfaces
    → IsIndexed (replace_interfaces interfaces self).table
      × ((n : String)
          → Table.get (replace_interfaces interfaces self).table n ≡ named_in n interfaces)
unfolding replace_interfaces Table.clear
replace_interfaces-IsIndexed interfaces self apart =
    let old = Set.collect (Table.all self.table) in
    let new = Set.collect interfaces in
    let filled = record self { table = insert_all (Table.clear self.table) new } in
    let told = broadcast_all (map interface_removed (Set.difference old new)) filled in
    let (indexed, held) = insert_all-empty new (AllApart-collect interfaces apart) in
    let same =
      table-broadcast_all (map interface_added (Set.difference new old)) told
      ∙ table-broadcast_all (map interface_removed (Set.difference old new)) filled in
    (rw same indexed, λ n. rw same (held n ∙ named_in-collect n interfaces apart))

-- Replacing the interfaces by others, of which no two share a name or an index, gives a well-formed
-- table that holds each under its name and nothing else. A subscriber is sent, after what it had,
-- removals of just the interfaces that the table held and that are not among the new ones, and then
-- additions of just the new ones that the table did not hold.
pub replace_interfaces_lem :
    (interfaces : List InterfaceInfo) (self : InterfaceManager) (r : ℕ)
    (l : List InterfaceManagerEvent)
    → AllApart interfaces
    → received r self.event_broadcaster.senders ≡ some l
    → let self' = replace_interfaces interfaces self in
      IsIndexed self'.table
      × ((n : String) → Table.get self'.table n ≡ named_in n interfaces)
      × ((removed : List InterfaceInfo) × (added : List InterfaceInfo) × (received r
              self'.event_broadcaster.senders
            ≡ some (l ++ (map interface_removed removed ++ map interface_added added)))
          × ((i : InterfaceInfo)
              → Set.contains i removed ≡ (
                  if Set.contains i interfaces
                  then false
                  else Set.contains i (Table.all self.table)))
          × ((i : InterfaceInfo)
              → Set.contains i added ≡ (
                  if Set.contains i (Table.all self.table)
                  then false
                  else Set.contains i interfaces)))
unfolding replace_interfaces Table.clear
replace_interfaces_lem interfaces self r l apart h =
    let old = Set.collect (Table.all self.table) in
    let new = Set.collect interfaces in
    let removed = Set.difference old new in
    let added = Set.difference new old in
    let filled = record self { table = insert_all (Table.clear self.table) new } in
    let told = broadcast_all (map interface_removed removed) filled in
    let (indexed, held) = replace_interfaces-IsIndexed interfaces self apart in
    (
      indexed,
      held,
      (
        removed,
        added,
        ground (
          arith,
          append_assoc l (map interface_removed removed) (map interface_added added),
          received-broadcast_all r (map interface_removed removed) filled l h,
          received-broadcast_all r (map interface_added added) told
              (l ++ map interface_removed removed),
        ),
        λ i. ground (
          arith,
          Set.contains-difference i old new,
          Set.contains-collect i interfaces,
          Set.contains-collect i (Table.all self.table),
        ),
        λ i. ground (
          arith,
          Set.contains-difference i new old,
          Set.contains-collect i interfaces,
          Set.contains-collect i (Table.all self.table),
        ),
      ),
    )

module _ (m : Machine) where
  -- A refresh that fails leaves the table and the subscribers as they were.
  pub refresh_interfaces_fails :
      (self : InterfaceManager) (s : m.State) (e : Error m)
      → (refresh_interfaces m self s).0 ≡ err e
      → (refresh_interfaces m self s).1 ≡ self
  unfolding refresh_interfaces
  refresh_interfaces_fails self s e h = elim (Result-cases (report m self s).0) [
    | inl (l, f) ↦ absurd (ground (arith, h, f))
    | inr (x, f) ↦ ground (arith, f, report-Still m self s)
  ]

  -- A refresh that succeeds replaces the interfaces by those that the kernel reported.
  pub refresh_interfaces-replace_interfaces :
      (self : InterfaceManager) (s : m.State) (l : List InterfaceInfo)
      → (report m self s).0 ≡ ok l
      → ((refresh_interfaces m self s).0 ≡ ok tt)
        × ((refresh_interfaces m self s).1 ≡ replace_interfaces l self)
  unfolding refresh_interfaces
  refresh_interfaces-replace_interfaces self s l h =
      (ground (arith, h), ground (arith, h, report-Still m self s))
