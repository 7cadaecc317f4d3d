-- ===== src/Scope/Pick/Sticky.antt =====
-- The choice of a host by session in scope.go: `getReplicaSticky` and both `getHostSticky`.

use chproxy.Topology.{Node}
use chproxy.Scope.Types.{Replica, Cluster}
use chproxy.Base.{
  ==_iff, Bool, Bool-cases, List, Text, any_of_get, arith, false, get_elem?, get_elem?-lt,
  if◌then◌else◌, inc32, inl, inr, length, refl, some, suc, true, u32, zero, ℕ, ◌%◌, ◌-◌, ◌==◌, ◌≡◌,
}
use chproxy.Scope.Pick.{
  scan_sticky, pick_sticky, replica_is_active, get_host_sticky, get_replica_sticky,
  replica_get_host_sticky, with_host_idx,
}
use chproxy.Scope.Pick.Hosts.{IsSized, SameNodes, with_host_idx-SameNodes}

module _ {ℓ} {A : Type ℓ} (is_active : A → Bool) (items : List A) where
  scan_sticky_active :
      (t k fallback : ℕ) (x : A)
      → get_elem? items t ≡ some x
      → is_active x ≡ true
      → scan_sticky is_active items t (suc k) fallback ≡ some t
  unfolding scan_sticky
  scan_sticky_active t k fallback x e a = rw (e, a, scan_sticky)

  scan_sticky_inactive :
      (t k fallback : ℕ) (x : A)
      → get_elem? items t ≡ some x
      → is_active x ≡ false
      → scan_sticky is_active items t k fallback ≡ some fallback
  unfolding scan_sticky
  scan_sticky_inactive t zero fallback x e a = refl
  scan_sticky_inactive t (suc k) fallback x e a =
      rw (e, a, scan_sticky) (scan_sticky_inactive t k fallback x e a)

  -- The item of a session, in a list of at most 2^31 items.
  abbrev pub session_index : ℕ → ℕ
  session_index hashed = hashed % length items

  -- The sticky choice in full: the session's item while it is active, whatever the counter; else
  -- the item that the counter points to, whether that one is active or not.
  pick_sticky_lem :
      (hashed next : ℕ)
      → IsSized items
      → (x : A) → get_elem? items (session_index hashed) ≡ some x
      → pick_sticky is_active items hashed next
        ≡ some (if is_active x then session_index hashed else inc32 next % length items, inc32 next)
  unfolding pick_sticky
  pick_sticky_lem hashed next (h, small) x e =
      let n = length items in
      let en : u32 n ≡ n = omega arith in
      let c = inc32 next in
      elim (Bool-cases (n == 1)) [
        | inl one ↦
            let e0 : session_index hashed ≡ 0 =
              let o : n ≡ 1 = (==_iff n 1).0 one in rw o (omega arith) in
            let e1 : c % n ≡ 0 = let o : n ≡ 1 = (==_iff n 1).0 one in rw o (omega arith) in
            rw (en, one, e0, e1, pick_sticky) (ground arith)
        | inr many ↦
            let nonzero : (n == 0) ≡ false = ground arith in
            let ek : n - 1 ≡ suc (n - 2) = ground arith in
            let (y, ey) = get_elem?-lt items (c % n) (grind arith) in
            elim (Bool-cases (is_active x)) [
              | inl on ↦
                  let sc : scan_sticky is_active items (hashed % n) (n - 1) (c % n)
                      ≡ some (hashed % n) =
                    rw ek (scan_sticky_active (hashed % n) (n - 2) (c % n) x e on) in
                  rw (en, many, nonzero, ey, sc, on, pick_sticky)
              | inr off ↦
                  let sc = scan_sticky_inactive (hashed % n) (n - 1) (c % n) x e off in
                  rw (en, many, nonzero, ey, sc, off, pick_sticky)
            ]
      ]

module _ (hash : Text → ℕ) where
  -- getHostSticky of a replica with at least one and at most 2^31 hosts returns the host that the
  -- hash of the session points to while that host is active, whatever the round-robin counter. If
  -- it is inactive, it returns the host that the counter points to, and looks at no other one.
  pub replica_get_host_sticky_lem :
      (session : Text) (r : Replica) (x : Node)
      → IsSized r.hosts
      → get_elem? r.hosts (hash session % length r.hosts) ≡ some x
      → replica_get_host_sticky hash session r
        ≡ some (
          if x.active
              then hash session % length r.hosts
              else inc32 r.next_host_idx % length r.hosts,
          record r { next_host_idx = inc32 r.next_host_idx },
        )
  unfolding replica_get_host_sticky
  replica_get_host_sticky_lem session r x sized e = rw (
    pick_sticky_lem (λ h. h.active) r.hosts (hash session) r.next_host_idx sized x e,
    replica_get_host_sticky,
  )

  -- Between two requests of one session the same replica and host are chosen, whatever the two
  -- round-robin counters are, while the session's replica and its host in it stay active.
  get_host_sticky-stable :
      (session : Text) (c : Cluster) (r : Replica) (x : Node)
      → IsSized c.replicas
      → IsSized r.hosts
      → get_elem? c.replicas (hash session % length c.replicas) ≡ some r
      → get_elem? r.hosts (hash session % length r.hosts) ≡ some x
      → x.active ≡ true
      → (d : Cluster) × (get_host_sticky hash session c
          ≡ some (
            record {
              replica = hash session % length c.replicas;
              host = hash session % length r.hosts;
            },
            d,
          ))
        × SameNodes c d
  unfolding get_host_sticky get_replica_sticky replica_is_active
  get_host_sticky-stable session c r x cs rs er ex on =
      let active =
        any_of_get (λ (h : Node). h.active) r.hosts (hash session % length r.hosts) ex on in
      (
        with_host_idx (hash session % length c.replicas) (inc32 r.next_host_idx)
            (record c { next_replica_idx = inc32 c.next_replica_idx }),
        rw (
          pick_sticky_lem replica_is_active c.replicas (hash session) c.next_replica_idx cs r er,
          replica_is_active,
          active,
          er,
          replica_get_host_sticky_lem session r x rs ex,
          on,
          get_host_sticky,
        ),
        with_host_idx-SameNodes _ _ _ c,
      )
