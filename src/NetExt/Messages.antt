-- ===== src/NetExt/Messages.antt =====
-- The messages of members/nullnet-grpc-lib/proto/nullnet_grpc.proto that build and remove an
-- edge, as members/nullnet-grpc-lib/src/proto/nullnet_grpc.rs declares them.
use nullnet.Prelude.{Bool, List, Option, Text, ℕ}

pub record MsgId : Type 0 where
  pub id : Text

pub record HostMapping : Type 0 where
  pub ip : Text
  pub name : Text

pub record GroupTransport : Type 0 where
  pub id : ℕ
  pub encryption_key : List ℕ
  pub peer_container : Bool
  pub generation : ℕ
  pub carrier_id : ℕ

pub record VlanSetup : Type 0 where
  pub msg_id : Option MsgId
  pub vlan_id : ℕ
  pub local_veth : Text
  pub remote_veth : Text
  pub local_ip : Text
  pub remote_ip : Text
  pub host_mapping : Option HostMapping
  pub encryption_key : List ℕ
  pub encrypted : Bool

pub record VlanTeardown : Type 0 where
  pub vlan_id : ℕ
  pub msg_id : Option MsgId

pub record VxlanSetup : Type 0 where
  pub msg_id : Option MsgId
  pub vxlan_id : ℕ
  pub ns_name : Text
  pub ns_net : Text
  pub br_name : Text
  pub br_net : Text
  pub local_ip : Text
  pub remote_ip : Text
  pub host_mapping : Option HostMapping
  pub docker_container : Option Text
  pub dnat_port : Option ℕ
  pub egress_steer : Option Bool
  pub egress_intercept : Option Bool
  pub encryption_key : List ℕ
  pub dstport : ℕ
  pub encrypted : Bool
  pub group_transport : Option GroupTransport
  pub xfrm_transport_id : Option ℕ

pub record VxlanTeardown : Type 0 where
  pub vxlan_id : ℕ
  pub ns_name : Text
  pub br_name : Text
  pub docker_container : Option Text
  pub local_ip : Text
  pub remote_ip : Text
  pub dstport : ℕ
  pub msg_id : Option MsgId
  pub group : Bool

-- The messages that `NetExt` makes; the others of `net_message::Message` are not needed here.
pub data NetMessage : Type 0 where
  vlan_setup : VlanSetup → NetMessage
  vlan_teardown : VlanTeardown → NetMessage
  vxlan_setup : VxlanSetup → NetMessage
  vxlan_teardown : VxlanTeardown → NetMessage

-- `enum EgressRole` of members/nullnet-server/src/net.rs.
pub data EgressRole : Type 0 where
  none steer intercept : EgressRole
