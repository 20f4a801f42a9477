-- ===== src/Davs/Headers/Laws.antt =====
-- What the headers accept, and their round trips.
use vestirust.Prelude.{
  Bool, true, false, String, List, [], ◌∷◌, ◌≡◌, ◌⊎◌, ◌↔◌, refl, ap, inl, inr, ok, ◌>>=◌, eq_iff,
  if◌then◌else◌, arith,
}
use vestirust.Davs.Headers.{
  the_one, Depth, infinity, overwrite, depth_of, overwrite_of, decode_depth, encode_depth,
  decode_overwrite, encode_overwrite,
}

-- The texts that stand for a depth.
abbrev pub IsDepthText : String → Depth → Type 0
IsDepthText v Depth.zero = v ≡ "0"
IsDepthText v Depth.one = v ≡ "1"
IsDepthText v infinity = (v ≡ "infinity") ⊎ (v ≡ "Infinity")

depth_of-IsDepthText : (v : String) (d : Depth) → depth_of v ≡ ok d → IsDepthText v d
unfolding depth_of
depth_of-IsDepthText v Depth.zero h =
    ground (arith, eq_iff v "0", eq_iff v "1", eq_iff v "infinity", eq_iff v "Infinity")
depth_of-IsDepthText v Depth.one h =
    ground (arith, eq_iff v "0", eq_iff v "1", eq_iff v "infinity", eq_iff v "Infinity")
depth_of-IsDepthText v infinity h =
    ground (arith, eq_iff v "0", eq_iff v "1", eq_iff v "infinity", eq_iff v "Infinity")

IsDepthText-depth_of : (v : String) (d : Depth) → IsDepthText v d → depth_of v ≡ ok d
unfolding depth_of
IsDepthText-depth_of v Depth.zero h = rw h
IsDepthText-depth_of v Depth.one h = rw h
IsDepthText-depth_of v infinity (inl h) = rw h
IsDepthText-depth_of v infinity (inr h) = rw h

-- The header `Depth` decodes exactly if it has one value, and that is the text of the depth; what was
-- encoded decodes to itself.
pub decode_depth_lem :
    (values : List String) (d : Depth)
    → ((decode_depth values ≡ ok d) ↔ ((v : String) × (values ≡ v ∷ []) × IsDepthText v d))
      × (decode_depth (encode_depth d []) ≡ ok d)
unfolding decode_depth encode_depth
decode_depth_lem values d = ((sound values, complete), round d)
  where
    sound :
        (vs : List String)
        → (the_one vs >>= depth_of) ≡ ok d
        → (v : String) × (vs ≡ v ∷ []) × IsDepthText v d
    sound [] h = cc
    sound (v ∷ []) h = (v, refl, depth_of-IsDepthText v d h)
    sound (v ∷ v' ∷ more) h = cc

    complete :
        ((v : String) × (values ≡ v ∷ []) × IsDepthText v d) → (the_one values >>= depth_of) ≡ ok d
    complete (v, e, t) = rw e (IsDepthText-depth_of v d t)

    round : (e : Depth) → decode_depth (encode_depth e []) ≡ ok e
    round Depth.zero = refl
    round Depth.one = refl
    round infinity = refl

-- The header `Overwrite` decodes exactly if it has one value, "T" or "F"; what was encoded decodes to
-- itself.
pub decode_overwrite_lem :
    (values : List String) (b : Bool)
    → ((decode_overwrite values ≡ ok (overwrite b)) ↔ (values ≡ (if b then "T" else "F") ∷ []))
      × (decode_overwrite (encode_overwrite (overwrite b) []) ≡ ok (overwrite b))
unfolding decode_overwrite encode_overwrite
decode_overwrite_lem values b = ((sound values b, complete b), round b)
  where
    sound :
        (vs : List String) (c : Bool)
        → (the_one vs >>= overwrite_of) ≡ ok (overwrite c)
        → vs ≡ (if c then "T" else "F") ∷ []
    sound [] c h = cc
    sound (v ∷ []) true h = ap (λ t. t ∷ []) (ground (arith, eq_iff v "F", eq_iff v "T"))
    sound (v ∷ []) false h = ap (λ t. t ∷ []) (ground (arith, eq_iff v "F", eq_iff v "T"))
    sound (v ∷ v' ∷ more) c h = cc

    complete :
        (c : Bool)
        → values ≡ (if c then "T" else "F") ∷ []
        → (the_one values >>= overwrite_of) ≡ ok (overwrite c)
    complete true e = rw e
    complete false e = rw e

    round : (c : Bool) → decode_overwrite (encode_overwrite (overwrite c) []) ≡ ok (overwrite c)
    round true = refl
    round false = refl

-- Each of the two headers decodes exactly if it has one value that stands for what is decoded: the
-- text of the depth, and "T" or "F"; what was encoded decodes to itself.
pub decode_headers :
    (values : List String) (d : Depth) (b : Bool)
    → ((decode_depth values ≡ ok d) ↔ ((v : String) × (values ≡ v ∷ []) × IsDepthText v d))
      × (decode_depth (encode_depth d []) ≡ ok d)
      × ((decode_overwrite values ≡ ok (overwrite b)) ↔ (values ≡ (if b then "T" else "F") ∷ []))
      × (decode_overwrite (encode_overwrite (overwrite b) []) ≡ ok (overwrite b))
decode_headers values d b =
    let (depth, depth_back) = decode_depth_lem values d in
    let (over, over_back) = decode_overwrite_lem values b in (depth, depth_back, over, over_back)
