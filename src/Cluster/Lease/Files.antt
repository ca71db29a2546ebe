-- ===== src/Cluster/Lease/Files.antt =====
-- Writing a shared receipt and reading it back, and what a receipt lets a start do.
use strix_halo_cluster_glm.Base.{
  String, ◌≡◌, refl, arith, ok, ◌==◌, eq_iff, ne_of_test, refuse, ◌>>◌, is_abs, clean, ◌||◌,
  if◌then◌else◌, some, ◌∙◌, List, [], ◌∷◌, any, all, not, Bool, true, false, ◌≢◌,
}
use strix_halo_cluster_glm.Cluster.Owner.{ClusterOwner}
use strix_halo_cluster_glm.Cluster.Lease.{
  SharedComputeReceipt, holding, shared_compute_schema, read_shared_compute, checked_receipt,
  is_none, entries, known_owners, known_states, shared_start_allowed, shared_matches_glm,
}

-- A text found in a list of non-empty texts is not empty.
known-ne-empty :
    (ss : List String) (x : String)
    → all (λ s. not (s == "")) ss ≡ true
    → any (λ s. x == s) ss ≡ true
    → (x == "") ≡ false
known-ne-empty [] x h k = cc
known-ne-empty (s ∷ ss) x h k =
    ground (arith, eq_iff x s, eq_iff x "", eq_iff s "", known-ne-empty ss x)

filled_schema : SharedComputeReceipt → String
filled_schema r = if r.schema == "" then shared_compute_schema else r.schema

four_guards :
    {A : Type 0} (a b c d : Bool) (ea eb ec ed : String) (k : A) {r : A}
    → (refuse a ea >> (refuse b eb >> (refuse c ec >> (refuse d ed >> ok k)))) ≡ ok r
    → (a ≡ false) × (b ≡ false) × (c ≡ false) × (d ≡ false) × (r ≡ k)
four_guards false false false false ea eb ec ed k h = ground arith
four_guards _ _ _ _ ea eb ec ed k h = cc

-- The guards of `writeSharedCompute` that an accepted receipt has passed.
checked-parts :
    (now dir : String) (r stored : SharedComputeReceipt)
    → checked_receipt now dir r ≡ ok stored
    → ((dir == "" || not (is_abs dir) || not (clean dir == dir)) ≡ false)
      × (not (filled_schema r == shared_compute_schema) ≡ false)
      × (not (any (λ o. r.owner == o) known_owners) ≡ false)
      × (not (any (λ s. r.state == s) known_states) ≡ false)
      × (stored
          ≡ record r { schema = filled_schema r; ranks = some (entries r.ranks); updated = now })
unfolding checked_receipt filled_schema
checked-parts now dir r stored h =
    four_guards (dir == "" || not (is_abs dir) || not (clean dir == dir))
      (not (filled_schema r == shared_compute_schema)) (not (any (λ o. r.owner == o) known_owners))
      (not (any (λ s. r.state == s) known_states)) _ _ _ _ _ h

accepted :
    (dir : String) (r : SharedComputeReceipt)
    → (dir == "") ≡ false
    → r.schema ≡ shared_compute_schema
    → (r.owner == "") ≡ false
    → (r.state == "") ≡ false
    → is_none r.ranks ≡ false
    → read_shared_compute dir (holding r) ≡ ok r
unfolding read_shared_compute
accepted dir r h schema owner state ranks =
    rw h (rw ((eq_iff _ _).1 schema) (rw owner (rw state (rw ranks))))

-- Whatever `writeSharedCompute` accepts and stores, `readSharedCompute` accepts and returns
-- unchanged; and what it stores differs from what it was given in nothing but a filled-in schema,
-- a ranks map that is no longer nil and the time of the write.
pub read-checked :
    (now dir : String) (r stored : SharedComputeReceipt)
    → checked_receipt now dir r ≡ ok stored
    → (read_shared_compute dir (holding stored) ≡ ok stored)
      × (stored ≡ record r {
        schema = shared_compute_schema;
        ranks = some (entries r.ranks);
        updated = now;
      })
read-checked now dir r stored h =
    let (usable, schema, owner, state, same) = checked-parts now dir r stored h in
    let fresh = (eq_iff (filled_schema r) shared_compute_schema).0 (ground arith) in
    (
      rw same (
          rw fresh (
            accepted dir
              (record r {
                schema = shared_compute_schema;
                ranks = some (entries r.ranks);
                updated = now;
              })
              (ground arith) refl (known-ne-empty known_owners r.owner refl (ground arith))
              (known-ne-empty known_states r.state refl (ground arith)) refl)),
      same ∙ rw fresh refl,
    )

-- A receipt that admits a start is no owner's: it matches no GLM pair, whatever its epoch and units.
pub start_allowed-not-matches :
    (r : SharedComputeReceipt) (o : ClusterOwner)
    → shared_start_allowed r ≡ ok tt
    → shared_matches_glm r o ≢ ok tt
unfolding shared_start_allowed shared_matches_glm
start_allowed-not-matches r o h m =
    ground (arith, eq_iff r.owner "NONE", eq_iff r.owner "GLM", ne_of_test "NONE" "GLM" refl)
