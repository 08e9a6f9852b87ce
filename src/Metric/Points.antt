-- ===== src/Metric/Points.antt =====
-- The points of a report, internal/metricstore/report_mapping.go, with the reports of
-- protocol/v2/jsonrpc.go. `F` is float64 and `of_int` the conversion to it; a time is a number of
-- nanoseconds, 0 for Go's zero time; an int64 is an ℤ.
use mango_hub.Base.{ℕ, ◌+◌, Option, none, some, List, [], ◌∷◌, ◌++◌, Bytes, codes}
use mango_hub.Base.Assoc.{Map}
use mango_hub.Base.Int.{ℤ}
use mango_hub.Agent.Queue.{decimal}

module _ (F : Type 0) where
  pub record CpuReport : Type 0 where
    pub name : Bytes
    pub cores : ℤ
    pub arch : Bytes
    pub usage : F

  pub record GpuDeviceInfo : Type 0 where
    pub name : Bytes
    pub memory_total : ℤ
    pub memory_used : ℤ
    pub utilization : F
    pub temperature : ℤ

  pub record GpuDetailReport : Type 0 where
    pub count : ℤ
    pub average_usage : F
    pub detailed_info : List GpuDeviceInfo

  pub record LoadReport : Type 0 where
    pub load1 : F
    pub load5 : F
    pub load15 : F

  pub record MiningReport : Type 0 where
    pub algorithm : Bytes
    pub pool : Bytes
    pub wallet : Bytes
    pub hashrate_1min : F
    pub hashrate_1hr : F
    pub power_w : F
    pub temperature : F
    pub fan_percent : F
    pub shares_total : ℤ
    pub shares_valid : ℤ
    pub shares_stale : ℤ
    pub shares_invalid : ℤ
    pub hw_errors : ℤ
    pub pool_latency : ℤ

  pub record DiskIoReport : Type 0 where
    pub device : Bytes
    pub mountpoint : Bytes
    pub read_bytes : F
    pub write_bytes : F
    pub read_iops : F
    pub write_iops : F

-- RamReport and DiskReport.
pub record SpaceReport : Type 0 where
  pub total : ℤ
  pub used : ℤ

pub record NetworkReport : Type 0 where
  pub up : ℤ
  pub down : ℤ
  pub total_up : ℤ
  pub total_down : ℤ

pub record ConnectionsReport : Type 0 where
  pub tcp : ℤ
  pub udp : ℤ

pub record Report (F : Type 0) : Type 0 where
  pub uuid : Bytes
  pub cpu : CpuReport F
  pub ram : SpaceReport
  pub swap : SpaceReport
  pub load : LoadReport F
  pub disk : SpaceReport
  pub network : NetworkReport
  pub connections : ConnectionsReport
  pub gpu : Option (GpuDetailReport F)
  pub mining : Option (MiningReport F)
  pub disk_io : List (DiskIoReport F)
  pub uptime : ℤ
  pub process : ℤ
  pub message : Bytes
  pub method : Bytes
  pub updated_at : ℕ

-- metric.Point, without labels, which these points do not have.
pub record Point (F : Type 0) : Type 0 where
  pub metric_name : Bytes
  pub entity_id : Bytes
  pub timestamp : ℕ
  pub value : F
  pub tags : Map Bytes

module _ {F : Type 0} where
  tagged_point : Bytes → ℕ → Map Bytes → Bytes → F → Point F
  tagged_point entity ts tags name v = record {
    metric_name = name;
    entity_id = entity;
    timestamp = ts;
    value = v;
    tags = tags;
  }

  plain_point : Bytes → ℕ → Bytes → F → Point F
  unfolding tagged_point
  plain_point entity ts name v = tagged_point entity ts [] name v

module _ {F : Type 0} (of_int : ℤ → F) where
  disk_points : Bytes → ℕ → List (DiskIoReport F) → List (Point F)
  unfolding tagged_point
  disk_points entity ts [] = []
  disk_points entity ts (d ∷ ds) =
      let tags = (codes "device", d.device) ∷ (codes "mountpoint", d.mountpoint) ∷ [] in
      let point = tagged_point entity ts tags in
      point (codes "disk_io.read_bytes") d.read_bytes
      ∷ point (codes "disk_io.write_bytes") d.write_bytes
      ∷ point (codes "disk_io.read_iops") d.read_iops
      ∷ point (codes "disk_io.write_iops") d.write_iops
      ∷ disk_points entity ts ds

  mining_points : Bytes → ℕ → Option (MiningReport F) → List (Point F)
  unfolding tagged_point
  mining_points entity ts none = []
  mining_points entity ts (some m) =
      let tags =
        (codes "rig", m.wallet) ∷ (codes "algorithm", m.algorithm) ∷ (codes "pool", m.pool) ∷ [] in
      let point = tagged_point entity ts tags in
      point (codes "mining.hashrate") m.hashrate_1min
      ∷ point (codes "mining.power") m.power_w
      ∷ point (codes "mining.temperature") m.temperature
      ∷ point (codes "mining.fan") m.fan_percent
      ∷ point (codes "mining.shares.valid") (of_int m.shares_valid)
      ∷ point (codes "mining.shares.stale") (of_int m.shares_stale)
      ∷ point (codes "mining.shares.invalid") (of_int m.shares_invalid)
      ∷ point (codes "mining.hw_errors") (of_int m.hw_errors)
      ∷ point (codes "mining.pool_latency") (of_int m.pool_latency)
      ∷ []

  -- The loop over the devices of a GPU report; `index` is deviceIndex.
  device_points : Bytes → ℕ → ℕ → List (GpuDeviceInfo F) → List (Point F)
  unfolding tagged_point
  device_points entity ts index [] = []
  device_points entity ts index (g ∷ gs) =
      let tags = (codes "device_index", decimal index) ∷ (codes "device_name", g.name) ∷ [] in
      let point = tagged_point entity ts tags in
      point (codes "gpu.memory.used") (of_int g.memory_used)
      ∷ point (codes "gpu.memory.total") (of_int g.memory_total)
      ∷ point (codes "gpu.device.usage") g.utilization
      ∷ point (codes "gpu.temperature") (of_int g.temperature)
      ∷ device_points entity ts (index + 1) gs

  gpu_points : Bytes → ℕ → Option (GpuDetailReport F) → List (Point F)
  unfolding device_points plain_point
  gpu_points entity ts none = []
  gpu_points entity ts (some g) =
      plain_point entity ts (codes "gpu.usage") g.average_usage
      ∷ device_points entity ts 0 g.detailed_info

  -- The points that every report gives, in the literal that the function starts with.
  entity_points : Report F → ℤ → ℤ → List (Point F)
  unfolding plain_point
  entity_points report traffic_up traffic_down =
      let point = plain_point report.uuid report.updated_at in
      point (codes "cpu.usage") report.cpu.usage
      ∷ point (codes "memory.used") (of_int report.ram.used)
      ∷ point (codes "swap.used") (of_int report.swap.used)
      ∷ point (codes "load.average") report.load.load1
      ∷ point (codes "disk.used") (of_int report.disk.used)
      ∷ point (codes "net.in.rate") (of_int report.network.down)
      ∷ point (codes "net.out.rate") (of_int report.network.up)
      ∷ point (codes "net.total.up") (of_int report.network.total_up)
      ∷ point (codes "net.total.down") (of_int report.network.total_down)
      ∷ point (codes "traffic.up") (of_int traffic_up)
      ∷ point (codes "traffic.down") (of_int traffic_down)
      ∷ point (codes "process.count") (of_int report.process)
      ∷ point (codes "connections.tcp") (of_int report.connections.tcp)
      ∷ point (codes "connections.udp") (of_int report.connections.udp)
      ∷ []

  -- reportMetricPoints
  unfoldable pub report_metric_points : Report F → ℤ → ℤ → List (Point F)
  unfolding entity_points disk_points mining_points gpu_points
  report_metric_points report traffic_up traffic_down =
      entity_points report traffic_up traffic_down
      ++ disk_points report.uuid report.updated_at report.disk_io
      ++ mining_points report.uuid report.updated_at report.mining
      ++ gpu_points report.uuid report.updated_at report.gpu
