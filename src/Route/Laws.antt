-- ===== src/Route/Laws.antt =====
-- The routing table as a list of routes in the order in which they were added, of which a look-up
-- takes the first that fits.
use burst_kernel_virtual_mac.Base.{
  ℕ, zero, suc, ◌+◌, ◌≤◌, ◌<◌, ltb, false, ◌≡◌, refl, ap, ◌∙◌, Option, none, some, List, [], ◌∷◌,
  ◌++◌, arith, length, set, take, replicate, get_elem?, find_index, length-set, take-set, lt→ltb,
  if◌then◌else◌, inl, inr, sym, Option-cases,
}
use mathlib.Core.Option.{some-injective}
use native.Mathlib.Numerals.{add-one}
use burst_kernel_virtual_mac.Base.Int.{pos}
use burst_kernel_virtual_mac.Route.{
  RouteEntry, Routes, max_routes, add_route, on_route, route_index, route_lookup,
}

-- The array has its 16 entries, and `num_routes` says how many of them are routes.
pub record IsValid (n : ℕ) (r : Routes) : Type 0 where
  pub size : length r.table ≡ max_routes
  pub count : r.num_routes ≡ pos n
  pub room : n ≤ max_routes

-- The routes of a table.
abbrev pub routes : ℕ → Routes → List RouteEntry
routes n r = take n r.table

-- The first route of a list that an address is on.
pub first_route : ℕ → List RouteEntry → Option RouteEntry
first_route ip [] = none
first_route ip (e ∷ es) = if on_route ip e then some e else first_route ip es

first_route-find_index :
    (ip n : ℕ) (es : List RouteEntry)
    → (elim (find_index (on_route ip) (take n es)) [ none ↦ none | some i ↦ get_elem? es i ])
      ≡ first_route ip (take n es)
unfolding first_route find_index
first_route-find_index ip zero es = refl
first_route-find_index ip (suc n) [] = refl
first_route-find_index ip (suc n) (e ∷ es) = ground (arith, first_route-find_index ip n es)

first_route-append :
    (ip : ℕ) (es fs : List RouteEntry)
    → first_route ip (es ++ fs)
      ≡ elim (first_route ip es) [ none ↦ first_route ip fs | some e ↦ some e ]
unfolding first_route
first_route-append ip [] fs = refl
first_route-append ip (e ∷ es) fs = ground (arith, first_route-append ip es fs)

-- On a valid table a look-up gives the first route, in the order of addition, that the address
-- is on, and none where it is on no route.
pub route_lookup_first :
    {n : ℕ} {r : Routes} (ip : ℕ) → IsValid n r → route_lookup ip r ≡ first_route ip (routes n r)
unfolding route_lookup route_index
route_lookup_first {n} {r} ip v = rw v.count (first_route-find_index ip n r.table)

abbrev pub new_route : ℕ → ℕ → List ℕ → RouteEntry
new_route dest_ip netmask mac = record {
  dest_ip = dest_ip;
  netmask = netmask;
  next_hop_mac = take 6 mac;
}

-- What `add_route` does to a table with room: one more route, behind the others.
pub record Added (n dest_ip netmask : ℕ) (mac : List ℕ) (r : Routes) : Type 0 where
  pub table : Routes
  pub returns : add_route dest_ip netmask mac r ≡ some table
  pub valid : IsValid (n + 1) table
  pub appended : routes (n + 1) table ≡ routes n r ++ new_route dest_ip netmask mac ∷ []

pub add_route-Added :
    {n : ℕ} {r : Routes} (dest_ip netmask : ℕ) (mac : List ℕ)
    → IsValid n r
    → n < max_routes
    → 6 ≤ length mac
    → Added n dest_ip netmask mac r
unfolding add_route
add_route-Added {n} {r} dest_ip netmask mac v room six = record {
  table = record {
    table = set r.table n (new_route dest_ip netmask mac);
    num_routes = pos (n + 1);
  };
  returns = rw (v.count, lt→ltb (n + 0) (16 + 0) (omega arith), long) refl;
  valid = record {
    size = length-set r.table n (new_route dest_ip netmask mac) ∙ v.size;
    count = refl;
    room = omega arith;
  };
  appended =
      rw add-one (take-set n r.table (new_route dest_ip netmask mac) (omega (arith, v.size)));
}
  where
    long : ltb (length mac) 6 ≡ false
    long = ground arith

-- On a full table `add_route` changes nothing.
pub add_route-full :
    {r : Routes} (dest_ip netmask : ℕ) (mac : List ℕ)
    → IsValid max_routes r
    → add_route dest_ip netmask mac r ≡ some r
unfolding add_route
add_route-full dest_ip netmask mac v = rw (v.count)

-- On a valid table with room, and for a MAC address of at least 6 bytes, `add_route` succeeds
-- and leaves a valid table with one route more. A look-up in it finds what it found before, if
-- it found a route, and else the new route, if the address is on it.
pub route_lookup-add_route :
    {n : ℕ} {r : Routes} (dest_ip netmask : ℕ) (mac : List ℕ) (ip : ℕ)
    → IsValid n r
    → n < max_routes
    → 6 ≤ length mac
    → (r' : Routes) × (add_route dest_ip netmask mac r ≡ some r')
      × IsValid (n + 1) r'
      × (route_lookup ip r' ≡ elim (route_lookup ip r) [
        | none ↦
            if on_route ip (new_route dest_ip netmask mac)
            then some (new_route dest_ip netmask mac)
            else none
        | some e ↦ some e
      ])
unfolding first_route
route_lookup-add_route {n} {r} dest_ip netmask mac ip v room six =
    let a = add_route-Added dest_ip netmask mac v room six in
    (
      a.table,
      a.returns,
      a.valid,
      route_lookup_first ip a.valid
          ∙ ap (first_route ip) a.appended
          ∙ rw (route_lookup_first ip v)
              (first_route-append ip (routes n r) (new_route dest_ip netmask mac ∷ [])),
    )

-- What a look-up finds stands in the table.
pub found_in_table :
    (r : Routes) (ip : ℕ) (e : RouteEntry)
    → route_lookup ip r ≡ some e
    → (i : ℕ) × (get_elem? r.table i ≡ some e)
unfolding route_lookup
found_in_table r ip e h = elim (Option-cases (route_index ip r)) [
  | inl missed ↦ (let nothing : none ≡ some e = rw (missed, route_lookup) at h in cc)
  | inr (i, found) ↦ (i, rw (found, route_lookup) at h)
]

-- The next hop of every entry has a MAC address of 6 bytes.
abbrev pub AllMacs : List RouteEntry → Type 0
AllMacs [] = Unit
AllMacs (e ∷ es) = (length e.next_hop_mac ≡ 6) × AllMacs es

pub replicate-AllMacs :
    (e : RouteEntry) (n : ℕ) → length e.next_hop_mac ≡ 6 → AllMacs (replicate n e)
replicate-AllMacs e zero six = tt
replicate-AllMacs e (suc n) six = (six, replicate-AllMacs e n six)

pub AllMacs-set :
    (es : List RouteEntry) (i : ℕ) (e : RouteEntry)
    → AllMacs es
    → length e.next_hop_mac ≡ 6
    → AllMacs (set es i e)
AllMacs-set [] i e all six = tt
AllMacs-set (f ∷ es) zero e all six = (six, all.1)
AllMacs-set (f ∷ es) (suc i) e all six = (all.0, AllMacs-set es i e all.1 six)

pub AllMacs-get :
    (es : List RouteEntry) (i : ℕ) (e : RouteEntry)
    → AllMacs es
    → get_elem? es i ≡ some e
    → length e.next_hop_mac ≡ 6
AllMacs-get [] i e all h = cc
AllMacs-get (f ∷ es) zero e all h =
    ap (λ x. length x.next_hop_mac) (some-injective _ _ (sym h)) ∙ all.0
AllMacs-get (f ∷ es) (suc i) e all h = AllMacs-get es i e all.1 h

-- What a look-up finds has one.
pub route_lookup-AllMacs :
    (r : Routes) (ip : ℕ) (e : RouteEntry)
    → AllMacs r.table
    → route_lookup ip r ≡ some e
    → length e.next_hop_mac ≡ 6
route_lookup-AllMacs r ip e all h =
    let (i, at_i) = found_in_table r ip e h in AllMacs-get r.table i e all at_i
