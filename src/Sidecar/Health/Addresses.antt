-- ===== src/Sidecar/Health/Addresses.antt =====
-- Which addresses the sidecar checks.
use kubernetes_cluster_monit.Kube.{Container}
use kubernetes_cluster_monit.Prelude.{
  ◌≡◌, refl, sym, ap, subst, ◌↔◌, inl, inr, true, false, List, [], ◌∷◌, ◌++◌, map, Memᴰ, Bool-cases,
  All, All-lookup, All-append, All-map, Mem-left, Mem-right, Mem-map,
}
use kubernetes_cluster_monit.Prelude.Int.{ℤ}
use kubernetes_cluster_monit.Prelude.Number.{itoa}
use kubernetes_cluster_monit.Prelude.Text.{Text, text_eq}
use kubernetes_cluster_monit.Sidecar.Health.{PodInfo, sidecar_name, port_infos, pod_infos}

abbrev info : Text → Text → Text → ℤ → PodInfo
info ip pod_name container p = record {
  pod_name = pod_name;
  container_name = container;
  port = itoa p;
  ip = ip;
}

-- An address is that of one port of a container of the pod, which is not the sidecar.
pub record IsAddress (ip pod_name : Text) (cs : List Container) (i : PodInfo) : Type 0 where
  pub container : Container
  pub number : ℤ
  pub has : Memᴰ container cs
  pub opened : Memᴰ number container.ports
  pub not_sidecar : text_eq container.name sidecar_name ≡ false
  pub is : i ≡ info ip pod_name container.name number

module _ (ip pod_name : Text) where
  port_infos-sidecar :
      (c : Text) (ports : List ℤ)
      → text_eq c sidecar_name ≡ true
      → port_infos ip pod_name c ports ≡ []
  unfolding port_infos
  port_infos-sidecar c [] e = refl
  port_infos-sidecar c (p ∷ ports) e = rw e (port_infos-sidecar c ports e)

  port_infos-other :
      (c : Text) (ports : List ℤ)
      → text_eq c sidecar_name ≡ false
      → port_infos ip pod_name c ports ≡ map (info ip pod_name c) ports
  unfolding port_infos
  port_infos-other c [] e = refl
  port_infos-other c (p ∷ ports) e =
      rw e (ap (◌∷◌ (info ip pod_name c p)) (port_infos-other c ports e))

  port_infos-IsAddress :
      (c : Container) (cs : List Container)
      → All (IsAddress ip pod_name (c ∷ cs)) (port_infos ip pod_name c.name c.ports)
  port_infos-IsAddress c cs = elim (Bool-cases (text_eq c.name sidecar_name)) [
    | inl e ↦ rw (port_infos-sidecar c.name c.ports e) tt
    | inr e ↦ rw (port_infos-other c.name c.ports e) (All_of_ports c.ports e (λ p m. m))
  ]
    where
      All_of_ports :
          (ports : List ℤ)
          → text_eq c.name sidecar_name ≡ false
          → ((p : ℤ) → Memᴰ p ports → Memᴰ p c.ports)
          → All (IsAddress ip pod_name (c ∷ cs)) (map (info ip pod_name c.name) ports)
      All_of_ports [] e sub = tt
      All_of_ports (p ∷ ports) e sub = (
        record {
          container = c;
          number = p;
          has = Memᴰ.head refl;
          opened = sub p (Memᴰ.head refl);
          not_sidecar = e;
          is = refl;
        },
        All_of_ports ports e (λ q m. sub q (Memᴰ.tail m)),
      )

  IsAddress-cons :
      (c : Container) (cs : List Container) (i : PodInfo)
      → IsAddress ip pod_name cs i
      → IsAddress ip pod_name (c ∷ cs) i
  IsAddress-cons c cs i a = record {
    container = a.container;
    number = a.number;
    has = Memᴰ.tail a.has;
    opened = a.opened;
    not_sidecar = a.not_sidecar;
    is = a.is;
  }

  pod_infos-IsAddress :
      (cs : List Container) → All (IsAddress ip pod_name cs) (pod_infos ip pod_name cs)
  unfolding pod_infos
  pod_infos-IsAddress [] = tt
  pod_infos-IsAddress (c ∷ cs) =
      All-append _ (port_infos ip pod_name c.name c.ports) (pod_infos ip pod_name cs)
        (port_infos-IsAddress c cs)
        (All-map _ _ (pod_infos ip pod_name cs) (IsAddress-cons c cs) (pod_infos-IsAddress cs))

  Mem-pod_infos :
      (cs : List Container) (c : Container) (p : ℤ)
      → Memᴰ c cs
      → Memᴰ p c.ports
      → text_eq c.name sidecar_name ≡ false
      → Memᴰ
          (record { pod_name = pod_name; container_name = c.name; port = itoa p; ip = ip })
          (pod_infos ip pod_name cs)
  unfolding pod_infos
  Mem-pod_infos [] c p m o n = elim m [ ]
  Mem-pod_infos (d ∷ cs) c p (Memᴰ.tail m) o n = Mem-right _ _ (Mem-pod_infos cs c p m o n)
  Mem-pod_infos (d ∷ cs) c p (Memᴰ.head e) o n =
      subst
        (λ (x : Container).
          Memᴰ (info ip pod_name c.name p)
            (port_infos ip pod_name x.name x.ports ++ pod_infos ip pod_name cs))
        e
        (Mem-left (port_infos ip pod_name c.name c.ports) (pod_infos ip pod_name cs)
          (rw (port_infos-other c.name c.ports n) (Mem-map (info ip pod_name c.name) p c.ports o)))

  -- The addresses that are checked are exactly those of the ports of the pod's containers other than
  -- the sidecar: each such port is checked, and nothing else is.
  pub Mem-pod_infos_iff :
      (cs : List Container) (i : PodInfo)
      → Memᴰ i (pod_infos ip pod_name cs) ↔ IsAddress ip pod_name cs i
  Mem-pod_infos_iff cs i = (
    λ m.
        All-lookup (IsAddress ip pod_name cs) i (pod_infos ip pod_name cs) (pod_infos-IsAddress cs)
          m,
    λ a.
        subst (λ x. Memᴰ x (pod_infos ip pod_name cs)) (sym a.is)
          (Mem-pod_infos cs a.container a.number a.has a.opened a.not_sidecar),
  )
