-- ===== src/Alua/Report.antt =====
-- The data of REPORT TARGET PORT GROUPS stay in the buffer, and their length counts every group.
use tcmu_runner.Prelude.{
  ℕ, ◌+◌, ◌*◌, ◌%◌, ◌^◌, ◌≤◌, ◌<◌, ◌≡◌, refl, sym, subst, ◌∙◌, Bool, false, ◌&&◌, List, [], ◌∷◌,
  ◌++◌, length, length-append, total, All, ltb, arith, if_ind,
}
use tcmu_runner.Cdb.{put_unaligned_be32, raw_get_unaligned_be32}
use tcmu_runner.Cdb.Bytes.{get-put-be32}
use tcmu_runner.Alua.{
  Port, Grp, port_bytes, group_bytes, report_groups, report_header, report_bytes,
}

-- A group whose counter is right, and fits its byte.
pub record Counted (g : Grp) : Type 0 where
  pub count : g.num_tgt_ports ≡ length g.tgt_ports
  pub fits : g.num_tgt_ports < 256

abbrev pub size : Grp → ℕ
size g = 8 + g.num_tgt_ports * 4

length-port_bytes : (ps : List Port) → length (port_bytes ps) ≡ length ps * 4
unfolding port_bytes
length-port_bytes [] = refl
length-port_bytes (p ∷ ps) = omega (arith, length-port_bytes ps)

length-group_bytes : (g : Grp) → Counted g → length (group_bytes g) ≡ size g
unfolding group_bytes
length-group_bytes g c = omega (arith, length-port_bytes g.tgt_ports, c.count)

abbrev written : Grp → ℕ
written g = 8 + length g.tgt_ports * 4

next-Inside :
    (alloc_len off : ℕ) (g : Grp)
    → Counted g
    → alloc_len + 1028 < 2 ^ 32
    → off ≤ alloc_len
    → ltb alloc_len ((off + size g) % 2 ^ 32) ≡ false
    → off + written g ≤ alloc_len
next-Inside alloc_len off g c h e q = ground (arith, q, c.count, c.fits)

-- The groups that are written end inside the buffer.
report_groups-Inside :
    (alloc_len off ret : ℕ) (gs : List Grp)
    → All Counted gs
    → alloc_len + 1028 < 2 ^ 32
    → off ≤ alloc_len
    → off + length (report_groups alloc_len off ret gs).0 ≤ alloc_len
unfolding report_groups
report_groups-Inside alloc_len off ret [] c h e = omega arith
report_groups-Inside alloc_len off ret (g ∷ gs) (cg, cs) h e =
    if_ind (λ (r : List ℕ × ℕ). off + length r.0 ≤ alloc_len)
      (ltb alloc_len ((off + size g) % 2 ^ 32))
      (λ _. report_groups-Inside alloc_len off ((ret + size g) % 2 ^ 32) gs cs h e)
      (λ q.
        let rest =
          report_groups-Inside alloc_len (off + written g) ((ret + written g) % 2 ^ 32) gs cs h
            (next-Inside alloc_len off g cg h e q) in
        omega (
          arith,
          rest,
          cg.count,
          length-group_bytes g cg,
          length-append (group_bytes g)
              (report_groups alloc_len (off + written g) ((ret + written g) % 2 ^ 32) gs).0,
        ))

-- The length that is reported counts the groups that are not written too.
report_groups-total :
    (alloc_len off ret : ℕ) (gs : List Grp)
    → All Counted gs
    → ret + total size gs < 2 ^ 32
    → (report_groups alloc_len off ret gs).1 ≡ ret + total size gs
unfolding report_groups total
report_groups-total alloc_len off ret [] c h = omega arith
report_groups-total alloc_len off ret (g ∷ gs) (cg, cs) h =
    if_ind (λ (r : List ℕ × ℕ). r.1 ≡ ret + (size g + total size gs))
      (ltb alloc_len ((off + size g) % 2 ^ 32))
      (λ _. report_groups-total alloc_len off _ gs cs (omega (arith, h)) ∙ omega (arith, h))
      (λ _.
        report_groups-total alloc_len (off + written g) _ gs cs (omega (arith, h, cg.count))
        ∙ omega (arith, h, cg.count))

length-put_unaligned_be32 :
    (v : ℕ) (rest : List ℕ) → length (put_unaligned_be32 v ++ rest) ≡ 4 + length rest
unfolding put_unaligned_be32
length-put_unaligned_be32 v rest = omega arith

module _ (ext_hdr : Bool) (alloc_len secs : ℕ) (gs : List Grp) where
  header-Inside : 8 ≤ alloc_len → 4 + length (report_header ext_hdr alloc_len secs) ≤ alloc_len
  header-Inside h =
      if_ind (λ b. 4 + length b ≤ alloc_len) (ext_hdr && ltb 5 alloc_len) (λ _. h)
        (λ _. omega arith)

  -- With room for the headers and a length that does not come near 2 ^ 32, for groups whose counters are
  -- right: REPORT TARGET PORT GROUPS writes no more than the allocated length, and the length that it
  -- reports is that of all groups, those without room too.
  pub report_bytes-Inside :
      All Counted gs
      → 8 ≤ alloc_len
      → alloc_len + 1028 < 2 ^ 32
      → total size gs < 2 ^ 32
      → (length (report_bytes ext_hdr alloc_len secs gs) ≤ alloc_len)
        × (raw_get_unaligned_be32 (report_bytes ext_hdr alloc_len secs gs) 0 ≡ total size gs)
  unfolding report_bytes put_unaligned_be32
  report_bytes-Inside c h8 h ht =
      let header = report_header ext_hdr alloc_len secs in
      let (bytes, n) = report_groups alloc_len (4 + length header) 0 gs in
      let sum : n ≡ total size gs =
        omega
          (arith, report_groups-total alloc_len (4 + length header) 0 gs c (omega (arith, ht))) in
      (
        omega (
          arith,
          length-put_unaligned_be32 n (header ++ bytes),
          length-append header bytes,
          report_groups-Inside alloc_len (4 + length header) 0 gs c h (header-Inside h8),
        ),
        get-put-be32 n (header ++ bytes) (subst (λ m. m < 2 ^ 32) (sym sum) ht) ∙ sum,
      )
