-- ===== src/RuleCache/Dmhc/Hit.antt =====
-- What a lookup finds, and after an insertion, validator/rule_cache/dmhc_rule_cache/dmhc.cc.
use hope_policy_engine.Prelude.{
  ℕ, ◌+◌, ◌≡◌, ◌∙◌, refl, sym, ap, ◌==◌, ◌≢◌, ◌&&◌, ◌⊎◌, inl, inr, Bool, true, false, [], ◌∷◌, List,
  Option, none, some, bit_xor, bit_xor_assoc, bit_xor_self, zero-bit_xor, arith, if◌then◌else◌,
}
use hope_policy_engine.Isa.{Operands, Results}
use hope_policy_engine.RuleCache.Run.{ok, stop}
use hope_policy_engine.RuleCache.Keys.{results_eq, results_eq_iff}
use hope_policy_engine.RuleCache.Dmhc.State.{Dmhc, Slot, Row, Cell, Consider, at_index}
use hope_policy_engine.RuleCache.Dmhc.Cells.{xor_cells, claim_cells, adjust_cell, cell_at}
use hope_policy_engine.RuleCache.Dmhc.Lookup.{agrees, hit_slot, any_zero, lookup}
use hope_policy_engine.RuleCache.Dmhc.Evict.{real_insert, merge_inputs}
use hope_policy_engine.RuleCache.Dmhc.Insert.{insert, insert_hops, hop_limit}
use hope_policy_engine.RuleCache.Dmhc.Address.{
  bind-cases, if-cases, assert-ok, ok-bind, at_index-set, xor-adjust, xor-claim, any_zero-claim,
  ok-injective,
}

some-injective : {A : Type 0} {a b : A} → some a ≡ some b → a ≡ b
some-injective e = ground arith

back : (current address : ℕ) → bit_xor current (bit_xor current address) ≡ address
back current address =
    sym (bit_xor_assoc current current address)
    ∙ ap (λ x. bit_xor x address) (bit_xor_self current)
    ∙ zero-bit_xor address

-- The stored inputs agree with those of the rule where they count.
merged :
    (slot : Slot) (ops : Operands) (c : Consider)
    → slot.use_flag ≡ true
    → (old : Operands) → slot.inputs ≡ merge_inputs c ops old
    → hit_slot ops slot c ≡ true
unfolding hit_slot merge_inputs
merged slot ops c u old e = rw (u, e) (ground arith)

-- An operand that counts is the one that was asked for.
abbrev pub Same : Bool → ℕ → ℕ → Type 0
Same counts stored queried = (counts ≡ false) ⊎ (stored ≡ queried)

-- The entry is used, and each of its operands that counts is the one that was asked for.
pub record Answers (ops : Operands) (consider : Consider) (slot : Slot) : Type 0 where
  pub used : slot.use_flag ≡ true
  pub pc : Same consider.pc slot.inputs.pc ops.pc
  pub ci : Same consider.ci slot.inputs.ci ops.ci
  pub op1 : Same consider.op1 slot.inputs.op1 ops.op1
  pub op2 : Same consider.op2 slot.inputs.op2 ops.op2
  pub op3 : Same consider.op3 slot.inputs.op3 ops.op3
  pub mem : Same consider.mem slot.inputs.mem ops.mem

-- each row has a cell under its hash, whose count is not zero
abbrev pub Counted : List Row → List ℕ → Type 0
Counted [] hashes = Unit
Counted (row ∷ rows) [] = ⊥
Counted (row ∷ rows) (h ∷ hashes) =
    ((cell : Cell) × (at_index row h ≡ ok cell) × (cell.cnt ≢ 0)) × Counted rows hashes

agrees-Same :
    (counts : Bool) (stored queried : ℕ)
    → agrees counts stored queried ≡ true
    → Same counts stored queried
agrees-Same true stored queried h = inr (ground arith)
agrees-Same false stored queried h = inl refl

hit_slot-Answers :
    (ops : Operands) (slot : Slot) (c : Consider) → hit_slot ops slot c ≡ true → Answers ops c slot
unfolding hit_slot
hit_slot-Answers ops slot c h =
    let (h0, mem) = both _ (agrees c.mem slot.inputs.mem ops.mem) h in
    let (h1, op3) = both _ (agrees c.op3 slot.inputs.op3 ops.op3) h0 in
    let (h2, op2) = both _ (agrees c.op2 slot.inputs.op2 ops.op2) h1 in
    let (h3, op1) = both _ (agrees c.op1 slot.inputs.op1 ops.op1) h2 in
    let (h4, ci) = both _ (agrees c.ci slot.inputs.ci ops.ci) h3 in
    let (used, pc) = both slot.use_flag (agrees c.pc slot.inputs.pc ops.pc) h4 in
    record {
      used = used;
      pc = agrees-Same c.pc slot.inputs.pc ops.pc pc;
      ci = agrees-Same c.ci slot.inputs.ci ops.ci ci;
      op1 = agrees-Same c.op1 slot.inputs.op1 ops.op1 op1;
      op2 = agrees-Same c.op2 slot.inputs.op2 ops.op2 op2;
      op3 = agrees-Same c.op3 slot.inputs.op3 ops.op3 op3;
      mem = agrees-Same c.mem slot.inputs.mem ops.mem mem;
    }
  where
    both : (a b : Bool) → (a && b) ≡ true → (a ≡ true) × (b ≡ true)
    both true b e = (refl, e)
    both false b e = absurd (cc e)

any_zero-Counted :
    (rows : List Row) (hashes : List ℕ) → any_zero rows hashes ≡ ok false → Counted rows hashes
unfolding any_zero
any_zero-Counted [] hashes e = tt
any_zero-Counted (row ∷ rows) [] e = absurd (cc e)
any_zero-Counted (row ∷ rows) (h ∷ hashes) e = bind-cases (at_index row h) _ e (λ cell found e1.
    if-cases (cell.cnt == 0) e1 (λ m e2. absurd (ground arith))
      (λ m e2. ((cell, found, λ z. ground arith), any_zero-Counted rows hashes e2)))

module _ (hasher : Operands → List ℕ) where
  -- A lookup that finds its tables so is a hit.
  hits :
      (ops : Operands) (consider : Consider) (d : Dmhc) (addr : ℕ) (slot : Slot)
      → any_zero d.gtable (hasher ops) ≡ ok false
      → xor_cells 0 d.gtable (hasher ops) ≡ ok addr
      → at_index d.mtable addr ≡ ok slot
      → hit_slot ops slot consider ≡ true
      → lookup hasher ops consider d ≡ ok (some slot.outputs, record d { hits = d.hits + 1 })
  unfolding lookup
  hits ops consider d addr slot z x s h = ok-bind _ z ∙ ok-bind _ x ∙ ok-bind _ s ∙ rw (h) refl

  -- A rule that `real_insert` has stored is found.
  pub lookup-real_insert :
      (address : ℕ) (ops : Operands) (res : Results) (free : ℕ) (consider : Consider) (d : Dmhc)
      {d' : Dmhc}
      → real_insert address ops res (hasher ops) free consider d ≡ ok d'
      → lookup hasher ops consider d' ≡ ok (some res, record d' { hits = d'.hits + 1 })
  unfolding real_insert
  lookup-real_insert address ops res free consider d {d'} e =
      bind-cases (at_index d.mtable address) _ e (λ slot s e1.
        bind-cases (cell_at d.gtable (hasher ops) free) _ e1 (λ cell c e2.
          bind-cases (xor_cells 0 d.gtable (hasher ops)) _ (assert-ok (cell.cnt == 0) _ e2)
            (λ current x e3.
              bind-cases (adjust_cell (bit_xor current address) d.gtable (hasher ops) free) _ e3
                (λ rows a e4.
                  bind-cases (claim_cells address rows (hasher ops)) _ e4 (λ rows' a' e5.
                    rw (← ok-injective e5) (
                      hits ops consider _ address _ (any_zero-claim address rows (hasher ops) a')
                        (xor-claim 0 address rows (hasher ops) a'
                          ∙ xor-adjust 0 (bit_xor current address) d.gtable (hasher ops) free x a
                          ∙ ap ok (back current address))
                        (at_index-set d.mtable address _ s)
                        (merged _ ops consider refl slot.inputs refl)))))))

  -- what a hit went through
  lookup_parts :
      (ops : Operands) (consider : Consider) (d : Dmhc) {res : Results} {d' : Dmhc}
      → lookup hasher ops consider d ≡ ok (some res, d')
      → (addr : ℕ) × (slot : Slot) × (any_zero d.gtable (hasher ops) ≡ ok false)
        × (xor_cells 0 d.gtable (hasher ops) ≡ ok addr)
        × (at_index d.mtable addr ≡ ok slot)
        × (hit_slot ops slot consider ≡ true)
        × (slot.outputs ≡ res)
        × (record d { hits = d.hits + 1 } ≡ d')
  unfolding lookup
  lookup_parts ops consider d {res} {d'} e =
      bind-cases (any_zero d.gtable (hasher ops)) _ e (λ missing z e1.
        if-cases missing e1 (λ m e2. absurd (ground arith))
          (λ m e2. bind-cases (xor_cells 0 d.gtable (hasher ops)) _ e2 (λ addr x e3.
            bind-cases (at_index d.mtable addr) _ e3 (λ slot s e4.
              if-cases (hit_slot ops slot consider) e4
                (λ h e5.
                  let pair = ok-injective e5 in
                  (
                    addr,
                    slot,
                    z ∙ ap ok m,
                    x,
                    s,
                    h,
                    some-injective (ap (λ r. r.0) pair),
                    ap (λ r. r.1) pair,
                  ))
                (λ h e5. absurd (ground arith))))))

  -- A hit gives the results of a used entry whose operands are those asked for where they count. Its
  -- address is the exclusive or of the cells under the hashes, none of which has the count zero. Only
  -- the statistics change.
  pub lookup-hit :
      (ops : Operands) (consider : Consider) (d : Dmhc) {res : Results} {d' : Dmhc}
      → lookup hasher ops consider d ≡ ok (some res, d')
      → (addr : ℕ) × (slot : Slot) × Counted d.gtable (hasher ops)
        × (xor_cells 0 d.gtable (hasher ops) ≡ ok addr)
        × (at_index d.mtable addr ≡ ok slot)
        × Answers ops consider slot
        × (slot.outputs ≡ res)
        × (d' ≡ record d { hits = d.hits + 1 })
  lookup-hit ops consider d e =
      let (addr, slot, z, x, s, h, r, same) = lookup_parts ops consider d e in
      (
        addr,
        slot,
        any_zero-Counted d.gtable (hasher ops) z,
        x,
        s,
        hit_slot-Answers ops slot consider h,
        r,
        sym same,
      )

  -- A second lookup of the same operands hits again.
  lookup-again :
      (ops : Operands) (consider : Consider) (d : Dmhc) {res : Results} {d' : Dmhc}
      → lookup hasher ops consider d ≡ ok (some res, d')
      → lookup hasher ops consider d' ≡ ok (some res, record d' { hits = d'.hits + 1 })
  lookup-again ops consider d {res} {d'} e =
      let (addr, slot, z, x, s, h, r, d≡) = lookup_parts ops consider d e in
      rw (← r, ← d≡) (hits ops consider (record d { hits = d.hits + 1 }) addr slot z x s h)

  checked :
      (ops : Operands) (res : Results) (consider : Consider) (d : Dmhc) (r : Option Results × Dmhc)
      {d' : Dmhc}
      → lookup hasher ops consider d ≡ ok r
      → (elim r.0 [ none ↦ stop 1 | some found ↦ if results_eq res found then ok r.1 else stop 1 ])
        ≡ ok d'
      → lookup hasher ops consider d' ≡ ok (some res, record d' { hits = d'.hits + 1 })
  checked ops res consider d (none, d4) e c = absurd (ground arith)
  checked ops res consider d (some found, d4) {d'} e c =
      if-cases (results_eq res found) c
        (λ same e'.
          rw ((results_eq_iff res found).0 same, ← ok-injective e') (lookup-again ops consider d e))
        (λ other e'. absurd (ground arith))

  -- An insertion that returns has stored its rule: the next lookup of its operands gives its results.
  pub lookup-insert :
      (ops : Operands) (res : Results) (consider : Consider) (d : Dmhc) {d' : Dmhc}
      → insert hasher ops res consider d ≡ ok d'
      → lookup hasher ops consider d' ≡ ok (some res, record d' { hits = d'.hits + 1 })
  unfolding insert
  lookup-insert ops res consider d {d'} e =
      bind-cases (at_index d.mtable d.next_entry) _ e (λ slot s e1. bind-cases _ _ e1 (λ d2 v e2.
        bind-cases (insert_hops hasher hop_limit (hasher ops) d.next_entry ops res none consider d2)
          _ e2
          (λ d3 i e3.
            bind-cases (lookup hasher ops consider d3) _ e3
              (λ r l e4. checked ops res consider d3 r l e4))))
