-- ===== src/Tree/Search.antt =====
-- The search against the paths of the tree that lead out of it.
use node_geoip2c.Base.{Bool-cases, inl, inr}
use node_geoip2c.Tree.{RecordInfo, next_record, address_bit, depth_bit, search_loop}
use node_geoip2c.Tree.{populate_result}
use node_geoip2c.Base.{
  ℕ, zero, suc, ◌+◌, ◌-◌, ◌≤◌, ◌<◌, ◌≡◌, ◌≢◌, refl, Bool, some, List, [], ◌∷◌, arith, leb,
  le→not-ltb, ◌==◌, length, sub16,
}
use node_geoip2c.Types.{LookupResult, Mmdb, Outcome, reading-eq-success, success}

-- From `node` the records that `bits` choose lead to `value`, the first that is no node number.
pub data Leads (m : Mmdb) (info : RecordInfo) : ℕ → List Bool → ℕ → Type 0 where
  last :
      {node value : ℕ} {bit : Bool}
      → next_record m info node bit ≡ some value
      → value ≢ 0
      → m.metadata.node_count ≤ value
      → Leads m info node (bit ∷ []) value
  step :
      {node node' value : ℕ} {bit : Bool} {bits : List Bool}
      → next_record m info node bit ≡ some node'
      → node' ≢ 0
      → node' < m.metadata.node_count
      → Leads m info node' bits value
      → Leads m info node (bit ∷ bits) value

-- The address has `bits` from its bit `i` on.
abbrev pub HasBits : List ℕ → ℕ → List Bool → Type 0
HasBits address i [] = Unit {0}
HasBits address i (bit ∷ bits) = (address_bit address i ≡ some bit) × HasBits address (i + 1) bits

pub depth_bit_at :
    (address : List ℕ) (max_depth0 current_bit i : ℕ)
    → i + current_bit ≡ max_depth0
    → depth_bit address max_depth0 current_bit ≡ address_bit address i
unfolding depth_bit
depth_bit_at address max_depth0 current_bit i h =
    let index : max_depth0 - current_bit ≡ i = omega arith in
    rw (le→not-ltb max_depth0 current_bit (omega arith), index) refl

module _ (m : Mmdb) (info : RecordInfo) (address : List ℕ) (result : LookupResult) where
  abbrev Populated : ℕ → ℕ → Outcome LookupResult
  Populated value current_bit = populate_result m m.metadata.node_count value current_bit result

  pub search_loop-Leads :
      {node value : ℕ} {bits : List Bool} (i rounds : ℕ)
      → Leads m info node bits value
      → HasBits address i bits
      → i + rounds ≡ sub16 m.depth 1 + 1
      → length bits ≤ rounds
      → search_loop m info address result rounds node ≡ Populated value (rounds - length bits)
  unfolding search_loop
  search_loop-Leads i zero (last e nz out) has total fits = absurd (omega arith)
  search_loop-Leads i (suc rounds) (last {node} {value} {bit} e nz out) (h0, h) total fits =
      let left : suc rounds - 1 ≡ rounds = omega arith in
      rw (depth_bit_at address (sub16 m.depth 1) rounds i (omega arith), h0, left) ground arith
  search_loop-Leads i zero (step e nz inside l) has total fits = absurd (omega arith)
  search_loop-Leads i (suc rounds) (step {bits = bits} e nz inside l) (h0, h) total fits =
      let left : suc rounds - suc (length bits) ≡ rounds - length bits = omega arith in
      let rest = search_loop-Leads (i + 1) rounds l h (omega arith) (omega arith) in
      rw (depth_bit_at address (sub16 m.depth 1) rounds i (omega arith), h0, left) ground
        (arith, rest)

  -- A path out of the tree for the address from its bit `i` on, in at most `rounds` steps, and
  -- the entry that the search gives for it.
  pub record Found (node i rounds : ℕ) (found : LookupResult) : Type 0 where
    pub bits : List Bool
    pub value : ℕ
    pub leads : Leads m info node bits value
    pub has : HasBits address i bits
    pub fits : length bits ≤ rounds
    pub populated : Populated value (rounds - length bits) ≡ success found

  pub search_loop-Found :
      (rounds i node : ℕ) (found : LookupResult)
      → i + rounds ≡ sub16 m.depth 1 + 1
      → search_loop m info address result rounds node ≡ success found
      → Found node i rounds found
  unfolding search_loop
  search_loop-Found zero i node found total h = absurd (cc)
  search_loop-Found (suc rounds) i node found total h =
      let (bit, read_bit, h1) = reading-eq-success (depth_bit address _ rounds) _ h in
      let (value, read, h2) = reading-eq-success (next_record m info node bit) _ h1 in
      let at_i : address_bit address i ≡ some bit =
        rw (depth_bit_at address (sub16 m.depth 1) rounds i (omega arith)) at read_bit in
      elim (Bool-cases (value == 0)) [
        | inl z ↦ absurd (cc (rw z at h2))
        | inr nz ↦ elim (Bool-cases (leb m.metadata.node_count value)) [
          | inl out ↦ record {
            bits = bit ∷ [];
            value = value;
            leads = last read (ground arith) (ground arith);
            has = (at_i, tt);
            fits = omega arith;
            populated =
                let left : suc rounds - 1 ≡ rounds = omega arith in rw left (rw (nz, out) at h2);
          }
          | inr inside ↦
              let rest =
                search_loop-Found rounds (i + 1) value found (omega arith)
                  (rw (nz, inside) at h2) in
              record {
                bits = bit ∷ rest.bits;
                value = rest.value;
                leads = step read (ground arith) (ground arith) rest.leads;
                has = (at_i, rest.has);
                fits = omega (arith, rest.fits);
                populated =
                    let left : suc rounds - suc (length rest.bits) ≡ rounds - length rest.bits =
                      omega arith in
                    rw left rest.populated;
              }
        ]
      ]
