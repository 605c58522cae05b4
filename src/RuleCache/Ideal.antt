-- ===== src/RuleCache/Ideal.antt =====
-- The unbounded cache, validator/rule_cache/ideal_rule_cache.
pub mod Laws
use hope_policy_engine.Prelude.{
  ℕ, Bool, true, false, if◌then◌else◌, ◌≡◌, refl, List, [], ◌∷◌, Option, none, some, arith,
}
use hope_policy_engine.Isa.{Operands, Results}
use hope_policy_engine.RuleCache.Run.{Run, ok}
use hope_policy_engine.RuleCache.Table.{Table, Eq, find, put, find-put, Unique, put-Unique}
use hope_policy_engine.RuleCache.Keys.{operands_eq, operands_key, operands_eq_iff}

abbrev pub Ideal : Type 0
Ideal = Table Operands Results

unfoldable pub init : Ideal
init = []

unfoldable pub flush : Ideal → Ideal
flush t = []

unfoldable pub install_rule : Operands → Results → Ideal → Ideal
install_rule ops res t = put ops res t

-- The fields of `res` are copied one by one.
unfoldable pub allow : Operands → Ideal → Option Results
allow ops t = elim (find ops t) [
  | some e ↦ some (record {
    pc = e.pc;
    rd = e.rd;
    csr = e.csr;
    pc_result = e.pc_result;
    rd_result = e.rd_result;
    csr_result = e.csr_result;
  })
  | none ↦ none
]

-- The calls `install_rule` and `flush` on a cache.
pub data Call : Type 0 where
  install : Operands → Results → Call
  clear : Call

unfoldable pub run : List Call → Ideal → Ideal
run [] t = t
run (install q r ∷ calls) t = run calls (install_rule q r t)
run (clear ∷ calls) t = run calls (flush t)

-- The results that the calls leave for some operands, if they had `r` before: the last installed
-- after the last flush.
unfoldable pub latest : List Call → Operands → Option Results → Option Results
latest [] q r = r
latest (install k v ∷ calls) q r = latest calls q (if operands_eq q k then some v else r)
latest (clear ∷ calls) q r = latest calls q none

pub allow-find : (q : Operands) (t : Ideal) → allow q t ≡ find q t
unfolding allow
allow-find q t = ground arith

run_from :
    (calls : List Call) (t : Ideal) (q : Operands)
    → allow q (run calls t) ≡ latest calls q (allow q t)
unfolding run latest
run_from [] t q = refl
run_from (install k v ∷ calls) t q =
    let e : allow q (install_rule k v t) ≡ (if operands_eq q k then some v else allow q t) =
      unfold install_rule in rw (allow-find q (put k v t), allow-find q t) (find-put k q v t) in
    rw (run_from calls (install_rule k v t) q, e)
run_from (clear ∷ calls) t q =
    let e : allow q (flush t) ≡ none = unfold allow flush find in refl in
    rw (run_from calls (flush t) q, e)

-- After any calls on a new ideal cache `allow` hits exactly on the operands that were installed since
-- the last flush, with the results installed last.
pub allow-run : (calls : List Call) (q : Operands) → allow q (run calls init) ≡ latest calls q none
allow-run calls q =
    let e : allow q init ≡ none = unfold allow init find in refl in rw (run_from calls init q, e)
