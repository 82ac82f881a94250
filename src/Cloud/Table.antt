-- ===== src/Cloud/Table.antt =====
-- The sizes of cloud hosts of rodeo/providers/instance_catalog.py: for each profile, what each tier
-- offers.
use rodeo_cli.Base.{String, [], ◌∷◌}
use rodeo_cli.Base.Dict.{Dict}

pub record InstanceOffer : Type 0 where
  pub instance_type : String
  pub label : String
  pub notes : String

abbrev offer : String → String → String → InstanceOffer
offer instance_type label notes = record {
  instance_type = instance_type;
  label = label;
  notes = notes;
}

unfoldable pub aws_profile_tiers : Dict (Dict InstanceOffer)
aws_profile_tiers =
    (
      "rancher",
      ("budget", offer "m7i.4xlarge" "budget" "16 vCPU / 64 GiB, EBS only")
          ∷ (
            "recommended",
            offer "m8id.4xlarge" "recommended"
                "16 vCPU / 64 GiB / a single 950 GB NVMe device, six VMs with headroom",
          )
          ∷ (
            "performance",
            offer "m7i.metal-24xl" "performance" "bare metal, max nested performance",
          )
          ∷ [],
    )
    ∷ (
      "rancher-test",
      ("budget", offer "m7i.2xlarge" "budget" "8 vCPU / 32 GiB, Rancher plus two small clusters")
          ∷ (
            "recommended",
            offer "m7i.4xlarge" "recommended" "16 vCPU / 64 GiB, comfortable headroom",
          )
          ∷ ("performance", offer "i7i.2xlarge" "performance" "local NVMe, faster guest disks")
          ∷ [],
    )
    ∷ (
      "test",
      ("budget", offer "m7i.4xlarge" "budget" "16 vCPU / 64 GiB — 2-node Harvester")
          ∷ ("recommended", offer "i7i.4xlarge" "recommended" "local NVMe — better nested I/O")
          ∷ (
            "performance",
            offer "i7i.8xlarge" "performance" "more NVMe / CPU for install wall-clock",
          )
          ∷ [],
    )
    ∷ (
      "harvester-2n",
      ("budget", offer "m7i.8xlarge" "budget" "32 vCPU / 128 GiB — 2n + Rancher")
          ∷ (
            "recommended",
            offer "m8id.8xlarge" "recommended"
                "32 vCPU / 128 GiB / a single ~1.9 TiB NVMe device — unlike i7i.8xlarge (same vCPU/RAM but splits its NVMe across two ~3.4 TiB devices, only one of which rodeo mounts), m8id.8xlarge's local storage is one device that matches this profile's real ~1060 GB need (500 GB/Harvester node + 60 GB Rancher) without wasting capacity",
          )
          ∷ (
            "performance",
            offer "m7i.metal-24xl" "performance" "bare metal — max nested performance",
          )
          ∷ [],
    )
    ∷ (
      "harvester-ha",
      ("budget", offer "m7i.12xlarge" "budget" "48 vCPU / 192 GiB — 3-node HA, no Rancher")
          ∷ (
            "recommended",
            offer "i7i.8xlarge" "recommended" "local NVMe — preferred for Harvester I/O",
          )
          ∷ (
            "performance",
            offer "m7i.metal-24xl" "performance" "bare metal — max nested performance",
          )
          ∷ [],
    )
    ∷ (
      "harvester",
      ("budget", offer "m7i.16xlarge" "budget" "64 vCPU / 256 GiB — 3-node + Rancher (EBS)")
          ∷ (
            "recommended",
            offer "m8id.8xlarge" "recommended"
                "32 vCPU / 128 GiB / a single ~1.9 TiB NVMe device — matches this profile's real ~1560 GB need (500 GB/Harvester node x 3 + 60 GB Rancher), not split across multiple devices",
          )
          ∷ (
            "performance",
            offer "m7i.metal-24xl" "performance" "bare metal — max nested performance",
          )
          ∷ [],
    )
    ∷ (
      "virt-workshop-aws",
      (
        "recommended",
        offer "m8id.8xlarge" "recommended"
            "32 vCPU / 128 GiB / a single ~1.9 TiB NVMe device — same as harvester; custom/scripts/ adds an image cache + NFS export + one pre-created VM on top, no extra host sizing needed",
      )
          ∷ (
            "performance",
            offer "m7i.metal-24xl" "performance" "bare metal — max nested performance",
          )
          ∷ [],
    )
    ∷ (
      "smlm-workshop",
      (
        "recommended",
        offer "m8id.4xlarge" "recommended"
            "16 vCPU / 64 GiB / a single 950 GB NVMe device — SMLM server (16 GiB) + 8 small clients with room for the ~200 GB server image",
      )
          ∷ (
            "performance",
            offer "m7i.metal-24xl" "performance" "bare metal — max nested performance",
          )
          ∷ [],
    )
    ∷ (
      "virt-workshop-aws-2n",
      (
        "budget",
        offer "m8id.4xlarge" "budget"
            "16 vCPU / 64 GiB / a single 950 GB NVMe device — this profile's actual intent: 2x400 + 60 (Rancher) = 860 GB fits with margin via resources.harvester.disk_floor_override_gb (see rodeo-plan.yaml)",
      )
          ∷ (
            "recommended",
            offer "m8id.8xlarge" "recommended"
                "32 vCPU / 128 GiB / 1.9 TiB NVMe — same instance as virt-workshop-aws's recommended tier, more headroom than 2 nodes need if you want it anyway",
          )
          ∷ (
            "performance",
            offer "m7i.metal-24xl" "performance" "bare metal — max nested performance",
          )
          ∷ [],
    )
    ∷ (
      "suse-edge",
      (
        "budget",
        offer "m7i.4xlarge" "budget"
            "16 vCPU / 64 GiB, EBS only — same size as recommended, just no local NVMe (genuine budget pick for this smaller guest footprint)",
      )
          ∷ (
            "recommended",
            offer "m8id.4xlarge" "recommended"
                "16 vCPU / 64 GiB / a single 950 GB NVMe device — local NVMe helps EIB's image-building I/O; ~310 GB guest disk need fits with ~640 GB to spare",
          )
          ∷ (
            "performance",
            offer "m7i.metal-24xl" "performance" "bare metal — max nested performance",
          )
          ∷ [],
    )
    ∷ []
