-- ===== src/Encapsulator/Devices.antt =====
-- Pass 1 of the analysis: one device for each cluster.
use ngraph.Prelude.{
  subst, String, ◌≡◌, refl, sym, ◌∙◌, inl, inr, some, List, [], ◌∷◌, arith, string_eq, lookup,
  assign, lookup-assign, In, Option-cases,
}
use ngraph.Prelude.Int.{ℤ, int_eq}
use ngraph.Prelude.Status.{ok}
use ngraph.Graph.{Node}
use ngraph.Assign.Tag.{get_node_cluster}
use ngraph.Encapsulator.Flow.{populate_devices}

-- the nodes of a cluster are on its device
abbrev pub IsPlaced : List Node → (ℤ → String) → Type 0
IsPlaced ns device =
    (n : Node) (c : ℤ) → In n ns → get_node_cluster n ≡ some c → n.device ≡ device c

-- what pass 1 does with one node
populate_devices-cases :
    (n : Node) (ns : List Node) (m m' : List (ℤ × String))
    → populate_devices (n ∷ ns) m ≡ ok m'
    → (b : List (ℤ × String)) × (populate_devices ns b ≡ ok m')
      × ((c : ℤ) → get_node_cluster n ≡ some c → lookup c b ≡ some n.device)
      × ((c : ℤ) (d : String) → lookup c m ≡ some d → lookup c b ≡ some d)
unfolding populate_devices
populate_devices-cases n ns m m' h = elim (Option-cases (get_node_cluster n)) [
  | inl free ↦ (m, ground arith, λ c k. ground arith, λ c d k. k)
  | inr (c, own) ↦ elim (Option-cases (lookup c m)) [
    | inl new_key ↦ (
      assign c n.device m,
      ground arith,
      λ j k. ground (arith, lookup-assign c j n.device m, int_eq.beq_iff j c),
      λ j d k. ground (arith, lookup-assign c j n.device m, int_eq.beq_iff j c),
    )
    | inr (d, old) ↦
        (m, ground (arith), λ j k. ground (arith, string_eq.beq_iff d n.device), λ j d k. k)
  ]
]

pub populate_devices-keeps :
    (ns : List Node) (m m' : List (ℤ × String)) (c : ℤ) (d : String)
    → populate_devices ns m ≡ ok m'
    → lookup c m ≡ some d
    → lookup c m' ≡ some d
unfolding populate_devices
populate_devices-keeps [] m m' c d h k = ground arith
populate_devices-keeps (n ∷ ns) m m' c d h k =
    let (b, rest, own, kept) = populate_devices-cases n ns m m' h in
    populate_devices-keeps ns b m' c d rest (kept c d k)

-- Pass 1 succeeds only if the nodes of each cluster are on one device, and then that is the
-- device it records for the cluster.
pub populate_devices-device :
    (ns : List Node) (m m' : List (ℤ × String)) (n : Node) (c : ℤ)
    → populate_devices ns m ≡ ok m'
    → In n ns
    → get_node_cluster n ≡ some c
    → lookup c m' ≡ some n.device
populate_devices-device [] m m' n c h i k = absurd (i tt)
populate_devices-device (x ∷ ns) m m' n c h i k =
    let (b, rest, own, kept) = populate_devices-cases x ns m m' h in
    elim i [
      | inl e ↦
          populate_devices-keeps ns b m' c n.device rest (
            subst (λ z. get_node_cluster z ≡ some c → lookup c b ≡ some z.device) (sym e) (own c) k)
      | inr j ↦ populate_devices-device ns b m' n c rest j k
    ]

-- the map agrees with an assignment of devices
abbrev Agrees : List (ℤ × String) → (ℤ → String) → Type 0
Agrees m device = (c : ℤ) (d : String) → lookup c m ≡ some d → d ≡ device c

-- Pass 1 succeeds if some assignment of devices to clusters places every node of a cluster.
pub populate_devices-total :
    (ns : List Node) (m : List (ℤ × String)) (device : ℤ → String)
    → IsPlaced ns device
    → Agrees m device
    → (m' : List (ℤ × String)) × (populate_devices ns m ≡ ok m')
unfolding populate_devices
populate_devices-total [] m device p a = (m, refl)
populate_devices-total (n ∷ ns) m device p a = elim (Option-cases (get_node_cluster n)) [
  | inl free ↦
      let (m', q) = populate_devices-total ns m device (λ x c i k. p x c (inr i) k) a in
      (m', ground (arith, q))
  | inr (c, own) ↦ elim (Option-cases (lookup c m)) [
    | inl new_key ↦
        let placed : n.device ≡ device c = p n c (inl refl) own in
        let (m', q) =
          populate_devices-total ns (assign c n.device m) device (λ x c i k. p x c (inr i) k)
            (λ j d k.
              ground (arith, lookup-assign c j n.device m, int_eq.beq_iff j c, a j d, placed)) in
        (m', ground (arith, q))
    | inr (d, old) ↦
        let same : d ≡ n.device = a c d old ∙ sym (p n c (inl refl) own) in
        let (m', q) = populate_devices-total ns m device (λ x c i k. p x c (inr i) k) a in
        (m', ground (arith, q, string_eq.beq_iff d n.device))
  ]
]
